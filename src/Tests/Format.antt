-- ===== src/Tests/Format.antt =====
-- Texts for values, read back from the front of a text, and with them a codec for queue items
-- that have an empty payload.
use Prim.Native.Char.{Char, code}
use engine_api_workflow.Common.{
  ℕ, zero, suc, String, Bool, if◌then◌else◌, ◌==◌, ◌≡◌, refl, sym, ap, ◌∙◌, Option, none, some, ℤ,
  pos, negsuc, arith,
}
use engine_api_workflow.Models.Value.{Fields, end, field}
use engine_api_workflow.Queue.Item.{QueueItem, Codec}

pub record Format (A : Type 0) : Type 0 where
  pub write : A → String → String
  pub read : String → Option (A × String)
  pub read-write : (a : A) (s : String) → read (write a s) ≡ some (a, s)

-- A character that goes on, and the end.
abbrev mark : String → String
mark s = String.◌∷◌ "x" s

abbrev stop : String → String
stop s = String.◌∷◌ ";" s

abbrev is_mark : Char → Bool
is_mark c = code c == b'x'

pub write_nat : ℕ → String → String
write_nat zero s = stop s
write_nat (suc n) s = mark (write_nat n s)

pub read_nat : String → Option (ℕ × String)
read_nat String.[] = none
read_nat (String.◌∷◌ c s) =
    let rest = read_nat s in
    if is_mark c
    then (elim rest [ none ↦ none | some (n, r) ↦ some (suc n, r) ])
    else some (zero, s)

pub read_nat-write_nat : (n : ℕ) (s : String) → read_nat (write_nat n s) ≡ some (n, s)
unfolding read_nat write_nat
read_nat-write_nat zero s = refl
read_nat-write_nat (suc n) s = rw (read_nat-write_nat n s) refl

unfoldable pub write_text : String → String → String
write_text String.[] s = stop s
write_text (String.◌∷◌ c t) s = mark (String.◌∷◌ c (write_text t s))

pub read_text : String → Option (String × String)
read_text String.[] = none
read_text (String.◌∷◌ m String.[]) = if is_mark m then none else some ("", "")
read_text (String.◌∷◌ m (String.◌∷◌ c s)) =
    let rest = read_text s in
    if is_mark m
    then (elim rest [ none ↦ none | some (t, r) ↦ some (String.◌∷◌ c t, r) ])
    else some ("", String.◌∷◌ c s)

pub read_text-write_text : (t s : String) → read_text (write_text t s) ≡ some (t, s)
unfolding read_text write_text
read_text-write_text String.[] String.[] = refl
read_text-write_text String.[] (String.◌∷◌ c s) = refl
read_text-write_text (String.◌∷◌ c t) s = rw (read_text-write_text t s) refl

nat_format : Format ℕ
nat_format = record { write = write_nat; read = read_nat; read-write = read_nat-write_nat }

text_format : Format String
text_format = record { write = write_text; read = read_text; read-write = read_text-write_text }

module _ {A B : Type 0} (f : Format A) (g : Format B) where
  write_pair : A × B → String → String
  write_pair (a, b) s = f.write a (g.write b s)

  read_pair : String → Option ((A × B) × String)
  read_pair s = elim (f.read s) [
    | none ↦ none
    | some (a, r) ↦ elim (g.read r) [ none ↦ none | some (b, q) ↦ some ((a, b), q) ]
  ]

  read_pair-write_pair : (p : A × B) (s : String) → read_pair (write_pair p s) ≡ some (p, s)
  unfolding read_pair write_pair
  read_pair-write_pair (a, b) s =
      rw (read_pair, f.read-write a (g.write b s), g.read-write b s) refl

  pair_format : Format (A × B)
  pair_format = record { write = write_pair; read = read_pair; read-write = read_pair-write_pair }

module _ {A B : Type 0} (f : Format A) (to : A → B) (from : B → A)
    (back : (b : B) → to (from b) ≡ b) where
  read_as : String → Option (B × String)
  read_as s = elim (f.read s) [ none ↦ none | some (a, r) ↦ some (to a, r) ]

  read_as-write : (b : B) (s : String) → read_as (f.write (from b) s) ≡ some (b, s)
  unfolding read_as
  read_as-write b s = rw (read_as, f.read-write (from b) s, back b) refl

  format_as : Format B
  format_as = record {
    write = λ b s. f.write (from b) s;
    read = read_as;
    read-write = read_as-write;
  }

-- Signed and optional numbers as a tag and a number.
to_int : ℕ × ℕ → ℤ
to_int (zero, n) = pos n
to_int (suc _, n) = negsuc n

from_int : ℤ → ℕ × ℕ
from_int (pos n) = (0, n)
from_int (negsuc n) = (1, n)

int_back : (a : ℤ) → to_int (from_int a) ≡ a
unfolding to_int from_int
int_back (pos n) = refl
int_back (negsuc n) = refl

to_option : ℕ × ℕ → Option ℕ
to_option (zero, n) = none
to_option (suc _, n) = some n

from_option : Option ℕ → ℕ × ℕ
from_option none = (0, 0)
from_option (some n) = (1, n)

option_back : (o : Option ℕ) → to_option (from_option o) ≡ o
unfolding to_option from_option
option_back none = refl
option_back (some n) = refl

int_format : Format ℤ
int_format = format_as (pair_format nat_format nat_format) to_int from_int int_back

option_format : Format (Option ℕ)
option_format = format_as (pair_format nat_format nat_format) to_option from_option option_back

-- An item but for its payload.
abbrev Texts : Type 0
Texts = String × (String × (String × (String × (String × String))))

abbrev Numbers : Type 0
Numbers = ℤ × (ℕ × (ℕ × (ℕ × (Option ℕ × (Option ℕ × (Option ℕ × Option ℕ))))))

texts_format : Format Texts
texts_format =
    let t = text_format in
    pair_format t (pair_format t (pair_format t (pair_format t (pair_format t t))))

numbers_format : Format Numbers
numbers_format =
    let n = nat_format in
    let o = option_format in
    pair_format int_format (
      pair_format n
        (pair_format n (pair_format n (pair_format o (pair_format o (pair_format o o))))))

to_item : Texts × Numbers → QueueItem
to_item ((id, (w, (x, (u, (e, st))))), (p, (m, (r, (c, (pa, (ca, (fa, du)))))))) = record {
  id = id;
  workflow_id = w;
  execution_id = x;
  user_id = u;
  payload = end;
  priority = p;
  max_retries = m;
  retry_count = r;
  created_at = c;
  processed_at = pa;
  completed_at = ca;
  failed_at = fa;
  error = e;
  status = st;
  delay_until = du;
}

from_item : QueueItem → Texts × Numbers
from_item i = (
  (i.id, (i.workflow_id, (i.execution_id, (i.user_id, (i.error, i.status))))),
  (
    i.priority,
    (
      i.max_retries,
      (
        i.retry_count,
        (i.created_at, (i.processed_at, (i.completed_at, (i.failed_at, i.delay_until)))),
      ),
    ),
  ),
)

write_item : QueueItem → String
write_item i = (pair_format texts_format numbers_format).write (from_item i) ""

read_item : String → Option QueueItem
read_item m = elim ((pair_format texts_format numbers_format).read m) [
  | none ↦ none
  | some (v, r) ↦ some (to_item v)
]

read_item-write_item :
    (i : QueueItem) → read_item (write_item i) ≡ some (record i { payload = end })
unfolding read_item write_item to_item from_item
read_item-write_item i =
    rw (read_item, (pair_format texts_format numbers_format).read-write (from_item i) "") refl

write_with : Fields → QueueItem → Option String
write_with end i = some (write_item i)
write_with (field k v m) i = none

read-write_with :
    (p : Fields) (i : QueueItem) (m : String)
    → write_with p i ≡ some m
    → read_item m ≡ some (record i { payload = p })
unfolding write_with
read-write_with end i m h =
    let same : write_item i ≡ m = ground arith in ap read_item (sym same) ∙ read_item-write_item i
read-write_with (field k v f) i m h = absurd (ground arith)

write_with-payload :
    (p : Fields) (i j : QueueItem) (m : String)
    → write_with p i ≡ some m
    → (n : String) × (write_with p j ≡ some n)
unfolding write_with
write_with-payload end i j m h = (write_item j, refl)
write_with-payload (field k v f) i j m h = absurd (ground arith)

pub text_codec : Codec
text_codec = record {
  marshal = λ i. write_with i.payload i;
  unmarshal = read_item;
  unmarshal-marshal = λ i m h. read-write_with i.payload i m h;
  marshal_payload = λ i j m same h. write_with-payload j.payload i j m (rw⁻¹ same h);
}
