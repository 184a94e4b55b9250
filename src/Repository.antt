-- ===== src/Repository.antt =====
-- The collections of the database, which internal/repository keeps its documents in: what the driver's
-- methods return and do to the state, and what is assumed of them. A filter is the test that it stands
-- for, an update the function that it applies to a document.
pub mod Notifications
pub mod Templates
use engine_api_workflow.Common.{
  ℕ, ◌≡◌, refl, ◌==◌, Bool, true, String, List, Option, none, some, All, if◌then◌else◌,
}

-- What a call of the driver answers: the documents that it matched, or an error.
pub data Reply : Type 0 where
  counted : ℕ → Reply
  broken : String → Reply

pub data Found (A : Type 0) : Type 0 where
  found : A → Found A
  no_documents : Found A
  unreadable : String → Found A

pub data Order : Type 0 where
  ascending descending : String → Order

-- The number that `find` takes is the limit, and zero is none.
pub record Collection (A : Type 0) : Type 1 where
  pub State : Type 0
  pub insert_one : A → State → Option String × State
  pub find_one : (A → Bool) → List Order → State → Found A
  pub update_one : (A → Bool) → (A → A) → State → Reply × State
  pub delete_one : (A → Bool) → State → Reply × State
  pub delete_many : (A → Bool) → State → Reply × State
  pub find : (A → Bool) → List Order → ℕ → State → Option (List A)

-- A property of every document of a state is kept by what keeps it for the document concerned, whether
-- or not the call fails, and what is found has it and passes the filter.
pub record IsLawful {A : Type 0} (C : Collection A) : Type 1 where
  pub Every : (A → Type 0) → C.State → Type 0
  pub insert_one-Every :
      (P : A → Type 0) (a : A) (s : C.State) → Every P s → P a → Every P (C.insert_one a s).1
  pub update_one-Every :
      (P : A → Type 0) (p : A → Bool) (f : A → A) (s : C.State)
      → Every P s
      → ((a : A) → P a → P (f a))
      → Every P (C.update_one p f s).1
  pub delete_one-Every :
      (P : A → Type 0) (p : A → Bool) (s : C.State) → Every P s → Every P (C.delete_one p s).1
  pub delete_many-Every :
      (P : A → Type 0) (p : A → Bool) (s : C.State) → Every P s → Every P (C.delete_many p s).1
  pub find_one-Every :
      (P : A → Type 0) (p : A → Bool) (o : List Order) (s : C.State) (a : A)
      → Every P s
      → C.find_one p o s ≡ found a
      → P a
  pub find-Every :
      (P : A → Type 0) (p : A → Bool) (o : List Order) (limit : ℕ) (s : C.State) (l : List A)
      → Every P s
      → C.find p o limit s ≡ some l
      → All P l
  pub find-passes :
      (p : A → Bool) (o : List Order) (limit : ℕ) (s : C.State) (l : List A)
      → C.find p o limit s ≡ some l
      → All (λ a. p a ≡ true) l

-- A document was not there, was refused by its validation, or the driver failed.
pub data RepositoryError (E : Type 0) : Type 0 where
  not_found : RepositoryError E
  invalid : E → RepositoryError E
  failed : String → RepositoryError E

-- What the methods return for an update or a deletion of one document.
abbrev pub one_matched : {S E : Type 0} → Reply × S → Option (RepositoryError E) × S
one_matched (counted k, s) = (if k == 0 then some not_found else none, s)
one_matched (broken text, s) = (some (failed text), s)

abbrev pub or_not_found : {A E : Type 0} → Found A → (Option A) × Option (RepositoryError E)
or_not_found (found a) = (some a, none)
or_not_found no_documents = (none, some not_found)
or_not_found (unreadable text) = (none, some (failed text))

-- The state is what the driver left, whatever is returned.
pub one_matched-state : {S : Type 0} (E : Type 0) (r : Reply × S) → (one_matched {E = E} r).1 ≡ r.1
one_matched-state E (counted k, s) = refl
one_matched-state E (broken text, s) = refl
