-- ===== src/Queue/Named.antt =====
-- internal/repository/redis/queue_repository.go: the queues under any name, as lists and sorted sets
-- of JSON values. The server is an interface, as in Queue/Redis: `Keys` is its part that has lists
-- and sorted sets under names, each list with its left end first.
pub mod Fifo
pub mod Delayed
pub mod Ranked
use engine_api_workflow.Common.{
  ℕ, ◌+◌, ◌*◌, ℤ, pos, neg, String, ◌≡◌, Bool, ◌||◌, List, [], ◌∷◌, Option, none, some, str_eq,
  if◌then◌else◌, length, ◌&◌,
}
use engine_api_workflow.Models.Value.{Value, second, unix}
use engine_api_workflow.Queue.Redis.{
  Exec, ok, ◌>>=◌, ◌>>◌, pure, or_raise, queue_empty, marshal_failed, unmarshal_failed, Sorted,
  discard, zinsert, in_range,
}

pub record Keys : Type 0 where
  pub lists : String → List String
  pub sorted : String → Sorted

abbrev pub update {ℓ} : {A : Type ℓ} → String → A → (String → A) → String → A
update k x f j = if str_eq k j then x else f j

pub data NamedCommand : Type 0 where
  lpush : String → String → NamedCommand
  zadd : String → ℤ → String → NamedCommand
  zrem : String → String → NamedCommand
  del : String → NamedCommand

module _ (before : String → String → Bool) where
  unfoldable pub apply : NamedCommand → Keys → Keys
  unfolding zinsert
  apply (lpush k m) v = record v { lists = update k (m ∷ v.lists k) v.lists }
  apply (zadd k s m) v = record v { sorted = update k (zinsert before s m (v.sorted k)) v.sorted }
  apply (zrem k m) v = record v { sorted = update k (discard m (v.sorted k)) v.sorted }
  apply (del k) v = record { lists = update k [] v.lists; sorted = update k [] v.sorted }

  unfoldable pub apply_all : List NamedCommand → Keys → Keys
  unfolding apply
  apply_all [] v = v
  apply_all (c ∷ cs) v = apply_all cs (apply c v)

-- The right end of a list, and what is left of it.
abbrev pub cons_fst {ℓ} : {A : Type ℓ} → A → Option (List A × A) → Option (List A × A)
cons_fst x none = some ([], x)
cons_fst x (some (ys, y)) = some (x ∷ ys, y)

unfoldable pub unsnoc {ℓ} : {A : Type ℓ} → List A → Option (List A × A)
unsnoc [] = none
unsnoc (x ∷ xs) = cons_fst x (unsnoc xs)

-- BRPOP: the right end of the first list that has any, with its name.
unfoldable pub pop_first : List String → Keys → Option (String × String) × Keys
unfolding unsnoc
pop_first [] v = (none, v)
pop_first (k ∷ ks) v = elim (unsnoc (v.lists k)) [
  | none ↦ pop_first ks v
  | some (rest, m) ↦ (some (k, m), record v { lists = update k rest v.lists })
]

abbrev pub last_of : List String → Option String
last_of l = elim (unsnoc l) [ none ↦ none | some (rest, m) ↦ some m ]

abbrev pub first_of : Sorted → Option String
first_of [] = none
first_of ((s, m) ∷ l) = some m

abbrev pub rest_of : Sorted → Sorted
rest_of [] = []
rest_of (e ∷ l) = l

-- The client. Of a successful call the answer and the effect are known; during a BRPOP that waits,
-- nobody else writes.
pub record Server : Type 1 where
  pub Store : Type 0
  pub view : Store → Keys
  pub before : String → String → Bool
  pub exec : List NamedCommand → Exec Store (Unit {0})
  pub brpop : List String → Exec Store (Option (String × String))
  pub llen : String → Exec Store ℕ
  pub lindex_last : String → Exec Store (Option String)
  pub zpop_min : String → Exec Store (Option String)
  pub zrange_by_score : String → ℤ → ℤ → Exec Store (List String)
  pub exec_effect :
      (cs : List NamedCommand) (s : Store)
      → (exec cs s).0 ≡ ok tt
      → view (exec cs s).1 ≡ apply_all before cs (view s)
  pub brpop_effect :
      (ks : List String) (s : Store) (o : Option (String × String))
      → (brpop ks s).0 ≡ ok o
      → (o ≡ (pop_first ks (view s)).0) × (view (brpop ks s).1 ≡ (pop_first ks (view s)).1)
  pub llen_effect :
      (k : String) (s : Store) (n : ℕ)
      → (llen k s).0 ≡ ok n
      → (n ≡ length ((view s).lists k)) × (view (llen k s).1 ≡ view s)
  pub lindex_effect :
      (k : String) (s : Store) (o : Option String)
      → (lindex_last k s).0 ≡ ok o
      → (o ≡ last_of ((view s).lists k)) × (view (lindex_last k s).1 ≡ view s)
  pub zpop_min_effect :
      (k : String) (s : Store) (o : Option String)
      → (zpop_min k s).0 ≡ ok o
      → (o ≡ first_of ((view s).sorted k))
        × (view (zpop_min k s).1
            ≡ record (view s) { sorted = update k (rest_of ((view s).sorted k)) (view s).sorted })
  pub zrange_effect :
      (k : String) (low high : ℤ) (s : Store) (ms : List String)
      → (zrange_by_score k low high s).0 ≡ ok ms
      → (ms ≡ in_range low high ((view s).sorted k))
        × (view (zrange_by_score k low high s).1 ≡ view s)

-- A connection on which no call fails.
pub record NeverFails (r : Server) : Type 0 where
  pub exec_answers : (cs : List NamedCommand) (s : r.Store) → (r.exec cs s).0 ≡ ok tt
  pub brpop_answers :
      (ks : List String) (s : r.Store) → (o : Option (String × String)) × ((r.brpop ks s).0 ≡ ok o)
  pub llen_answers : (k : String) (s : r.Store) → (n : ℕ) × ((r.llen k s).0 ≡ ok n)
  pub lindex_answers :
      (k : String) (s : r.Store) → (o : Option String) × ((r.lindex_last k s).0 ≡ ok o)
  pub zpop_min_answers :
      (k : String) (s : r.Store) → (o : Option String) × ((r.zpop_min k s).0 ≡ ok o)
  pub zrange_answers :
      (k : String) (low high : ℤ) (s : r.Store)
      → (ms : List String) × ((r.zrange_by_score k low high s).0 ≡ ok ms)

-- encoding/json on values of the program: what was written reads back.
pub record Json : Type 0 where
  pub marshal : Value → Option String
  pub unmarshal : String → Option Value
  pub unmarshal-marshal : (v : Value) (m : String) → marshal v ≡ some m → unmarshal m ≡ some v

module _ (json : Json) (server : Server) where
  open json use {marshal, unmarshal}
  open server use {Store, exec, brpop, llen, lindex_last, zpop_min, zrange_by_score}

  unfoldable pub push : String → Value → Exec Store (Unit {0})
  push queue_name data_value = do
    m ← or_raise (marshal data_value) marshal_failed
    exec (lpush queue_name m ∷ [])

  -- The timeout of the wait is the server's.
  unfoldable pub pop : String → Exec Store Value
  pop queue_name = do
    popped ← brpop (queue_name ∷ [])
    (k, m) ← or_raise popped queue_empty
    or_raise (unmarshal m) unmarshal_failed

  unfoldable pub queue_length : String → Exec Store ℕ
  queue_length queue_name = llen queue_name

  unfoldable pub peek : String → Exec Store Value
  peek queue_name = do
    last ← lindex_last queue_name
    m ← or_raise last queue_empty
    or_raise (unmarshal m) unmarshal_failed

  unfoldable pub clear : String → Exec Store (Unit {0})
  clear queue_name = exec (del queue_name ∷ [])

  unfoldable pub push_priority : String → Value → ℤ → Exec Store (Unit {0})
  push_priority queue_name data_value priority = do
    m ← or_raise (marshal data_value) marshal_failed
    exec (zadd queue_name (neg priority) m ∷ [])

  unfoldable pub pop_priority : String → Exec Store Value
  pop_priority queue_name = do
    popped ← zpop_min queue_name
    m ← or_raise popped queue_empty
    or_raise (unmarshal m) unmarshal_failed

  abbrev pub delayed_name : String → String
  delayed_name queue_name = queue_name & "_delayed"

  unfoldable pub push_delayed : String → Value → ℕ → ℕ → Exec Store (Unit {0})
  push_delayed queue_name data_value delay now = do
    m ← or_raise (marshal data_value) marshal_failed
    exec (zadd (delayed_name queue_name) (pos (unix (now + delay * second))) m ∷ [])

  -- ZREM and LPUSH for every job that is due.
  unfoldable pub release_jobs : String → List String → List NamedCommand
  release_jobs queue_name [] = []
  release_jobs queue_name (m ∷ ms) =
      zrem (delayed_name queue_name) m ∷ lpush queue_name m ∷ release_jobs queue_name ms

  unfoldable pub release : String → List String → Exec Store (Unit {0})
  release queue_name [] = pure tt
  release queue_name (m ∷ ms) = exec (release_jobs queue_name (m ∷ ms))

  unfoldable pub process_delayed_jobs : String → ℕ → Exec Store (Unit {0})
  process_delayed_jobs queue_name now = do
    ms ← zrange_by_score (delayed_name queue_name) (pos 0) (pos (unix now))
    release queue_name ms
