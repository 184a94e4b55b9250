-- ===== src/Queue/Redis.antt =====
-- What the queue repository relies on: the Redis commands that it sends, with their documented
-- effect, and encoding/json on a queue item. Both are parameters of the repository.
--
-- `View` is the part of the database that the repository names: two sorted sets, three sets and
-- the hash of statistics. A sorted set is kept in the order in which ZPOPMIN and ZRANGE give it.
use engine_api_workflow.Common.{
  ℤ, ◌+ℤ◌, String, ◌≡◌, List, [], ◌∷◌, Bool, false, ◌&&◌, ◌||◌, Option, none, some, ltb_ℤ, leb_ℤ,
  if◌then◌else◌, str_eq,
}

-- A call returns or fails; what was done before it failed stays done.
pub data QueueError : Type 0 where
  queue_empty task_not_found marshal_failed unmarshal_failed connection : QueueError
  unsupported_status not_implemented : QueueError

pub data Result {ℓ} (A : Type ℓ) : Type ℓ where
  ok : A → Result A
  err : QueueError → Result A

abbrev pub Exec : Type 0 → Type 0 → Type 0
Exec S A = S → Result A × S

module _ {S A B : Type 0} where
  abbrev pub continue : Result A → (A → Exec S B) → Exec S B
  continue (ok a) f s = f a s
  continue (err e) f s = (err e, s)

  infixl 10 ◌>>=◌ ◌>>◌
  unfoldable pub ◌>>=◌ : Exec S A → (A → Exec S B) → Exec S B
  ◌>>=◌ m f s = let (r, s') = m s in continue r f s'

  abbrev pub ◌>>◌ : Exec S A → Exec S B → Exec S B
  m >> n = m >>= λ _. n

module _ {S A : Type 0} where
  abbrev pub pure : A → Exec S A
  pure a s = (ok a, s)

  abbrev pub raise : QueueError → Exec S A
  raise e s = (err e, s)

  abbrev pub or_raise : Option A → QueueError → Exec S A
  or_raise none e s = (err e, s)
  or_raise (some a) e s = (ok a, s)

  -- An error that the caller only prints.
  abbrev pub ignore_error : Exec S A → Exec S (Unit {0})
  ignore_error m s = (ok tt, (m s).1)

-- The keys of the repository: WorkflowQueue and DelayedQueue are sorted sets, ProcessingSet,
-- CompletedSet and FailedSet are sets, and the fields are those of the hash StatsKey.
pub data SortedKey : Type 0 where
  workflow_queue delayed_queue : SortedKey

pub data SetKey : Type 0 where
  processing_set completed_set failed_set : SetKey

pub data StatField : Type 0 where
  queued total delayed processing completed failed retries : StatField

abbrev pub Sorted : Type 0
Sorted = List (ℤ × String)

pub record View : Type 0 where
  pub queue : Sorted
  pub later : Sorted
  pub running : List String
  pub done : List String
  pub dead : List String
  pub n_queued : ℤ
  pub n_total : ℤ
  pub n_delayed : ℤ
  pub n_processing : ℤ
  pub n_completed : ℤ
  pub n_failed : ℤ
  pub n_retries : ℤ

pub data Command : Type 0 where
  zadd : SortedKey → ℤ → String → Command
  zrem : SortedKey → String → Command
  sadd srem : SetKey → String → Command
  hincrby : StatField → ℤ → Command

-- ZREM and SREM: the member goes, if it is there.
unfoldable pub discard : String → Sorted → Sorted
discard m [] = []
discard m ((score, n) ∷ l) = if str_eq n m then l else (score, n) ∷ discard m l

unfoldable pub remove : String → List String → List String
remove m [] = []
remove m (n ∷ l) = if str_eq n m then l else n ∷ remove m l

unfoldable pub has : String → List String → Bool
has m [] = false
has m (n ∷ l) = str_eq n m || has m l

abbrev pub Distinct : List String → Type 0
Distinct [] = Unit
Distinct (m ∷ l) = (has m l ≡ false) × Distinct l

-- SADD: a member stands in a set once.
unfoldable pub insert : String → List String → List String
unfolding has
insert m l = if has m l then l else m ∷ l

-- The order of a sorted set: by score, and among equal scores by the bytes of the members.
module _ (before : String → String → Bool) where
  unfoldable pub place : ℤ → String → Sorted → Sorted
  place score m [] = (score, m) ∷ []
  place score m ((s, n) ∷ l) =
      if ltb_ℤ score s || (leb_ℤ score s && before m n)
      then (score, m) ∷ (s, n) ∷ l
      else (s, n) ∷ place score m l

  -- ZADD: a member that is there already moves to its new score.
  unfoldable pub zinsert : ℤ → String → Sorted → Sorted
  zinsert score m l = place score m (discard m l)

  unfoldable pub apply : Command → View → View
  unfolding zinsert insert
  apply (zadd workflow_queue s m) v = record v { queue = zinsert s m v.queue }
  apply (zadd delayed_queue s m) v = record v { later = zinsert s m v.later }
  apply (zrem workflow_queue m) v = record v { queue = discard m v.queue }
  apply (zrem delayed_queue m) v = record v { later = discard m v.later }
  apply (sadd processing_set m) v = record v { running = insert m v.running }
  apply (sadd completed_set m) v = record v { done = insert m v.done }
  apply (sadd failed_set m) v = record v { dead = insert m v.dead }
  apply (srem processing_set m) v = record v { running = remove m v.running }
  apply (srem completed_set m) v = record v { done = remove m v.done }
  apply (srem failed_set m) v = record v { dead = remove m v.dead }
  apply (hincrby queued n) v = record v { n_queued = v.n_queued +ℤ n }
  apply (hincrby total n) v = record v { n_total = v.n_total +ℤ n }
  apply (hincrby delayed n) v = record v { n_delayed = v.n_delayed +ℤ n }
  apply (hincrby processing n) v = record v { n_processing = v.n_processing +ℤ n }
  apply (hincrby completed n) v = record v { n_completed = v.n_completed +ℤ n }
  apply (hincrby failed n) v = record v { n_failed = v.n_failed +ℤ n }
  apply (hincrby retries n) v = record v { n_retries = v.n_retries +ℤ n }

  -- A pipeline: the commands in their order.
  unfoldable pub apply_all : List Command → View → View
  unfolding apply
  apply_all [] v = v
  apply_all (c ∷ cs) v = apply_all cs (apply c v)

abbrev pub sorted_at : SortedKey → View → Sorted
sorted_at workflow_queue v = v.queue
sorted_at delayed_queue v = v.later

abbrev pub put_sorted : SortedKey → Sorted → View → View
put_sorted workflow_queue l v = record v { queue = l }
put_sorted delayed_queue l v = record v { later = l }

abbrev pub set_at : SetKey → View → List String
set_at processing_set v = v.running
set_at completed_set v = v.done
set_at failed_set v = v.dead

-- ZRANGEBYSCORE low high.
unfoldable pub in_range : ℤ → ℤ → Sorted → List String
in_range low high [] = []
in_range low high ((s, m) ∷ l) =
    let rest = in_range low high l in if leb_ℤ low s && leb_ℤ s high then m ∷ rest else rest

-- The client of the server. A successful call has the command's documented effect on the view; of
-- a failed call nothing is known.
pub record Redis : Type 1 where
  pub Store : Type 0
  pub view : Store → View
  pub before : String → String → Bool
  pub exec : List Command → Exec Store (Unit {0})
  pub zpop_min : SortedKey → Exec Store (Option String)
  pub zrange_first : SortedKey → Exec Store (Option String)
  pub zrange_by_score : SortedKey → ℤ → ℤ → Exec Store (List String)
  pub smembers : SetKey → Exec Store (List String)
  pub exec_effect :
      (cs : List Command) (s : Store)
      → (exec cs s).0 ≡ ok tt
      → view (exec cs s).1 ≡ apply_all before cs (view s)
  pub zpop_min_none :
      (k : SortedKey) (s : Store)
      → (zpop_min k s).0 ≡ ok none
      → (sorted_at k (view s) ≡ []) × (view (zpop_min k s).1 ≡ view s)
  pub zpop_min_some :
      (k : SortedKey) (s : Store) (m : String)
      → (zpop_min k s).0 ≡ ok (some m)
      → (score : ℤ) × (rest : Sorted) × (sorted_at k (view s) ≡ (score, m) ∷ rest)
        × (view (zpop_min k s).1 ≡ put_sorted k rest (view s))
  pub zrange_first_view : (k : SortedKey) (s : Store) → view (zrange_first k s).1 ≡ view s
  pub zrange_by_score_ok :
      (k : SortedKey) (low high : ℤ) (s : Store) (ms : List String)
      → (zrange_by_score k low high s).0 ≡ ok ms
      → (ms ≡ in_range low high (sorted_at k (view s)))
        × (view (zrange_by_score k low high s).1 ≡ view s)
  -- The members come in any order, each once.
  pub smembers_ok :
      (k : SetKey) (s : Store) (ms : List String)
      → (smembers k s).0 ≡ ok ms
      → Distinct ms
        × ((m : String) → has m ms ≡ has m (set_at k (view s)))
        × (view (smembers k s).1 ≡ view s)

-- A connection on which no call fails.
pub record IsReliable (r : Redis) : Type 0 where
  pub exec_answers : (cs : List Command) (s : r.Store) → (r.exec cs s).0 ≡ ok tt
  pub zpop_min_answers :
      (k : SortedKey) (s : r.Store) → (o : Option String) × ((r.zpop_min k s).0 ≡ ok o)
  pub zrange_by_score_answers :
      (k : SortedKey) (low high : ℤ) (s : r.Store)
      → (ms : List String) × ((r.zrange_by_score k low high s).0 ≡ ok ms)
  pub smembers_answers :
      (k : SetKey) (s : r.Store) → (ms : List String) × ((r.smembers k s).0 ≡ ok ms)
