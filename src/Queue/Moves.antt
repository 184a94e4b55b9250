-- ===== src/Queue/Moves.antt =====
-- An item moves from one collection to another: the member goes, a member with the same ID comes.
use engine_api_workflow.Common.{Bool, ℕ, ◌+◌, ◌≡◌, ◌≤◌, ℤ, String, List, true, some, arith, length}
use engine_api_workflow.Queue.Redis.{Sorted, has, insert, remove, discard, zinsert}
use engine_api_workflow.Queue.Item.{QueueItem, Codec}
use engine_api_workflow.Queue.Census.{
  zhas, carries, ids, zids, length-remove, length-discard, carries_own, carries_same, ids-remove,
  zids-discard, insert_fresh, zinsert_fresh,
}

-- What a move from a place that holds `a` to one that holds `b` does: one fewer, one more, and each
-- ID as often as before in the two together.
abbrev pub Moved :
    (String → ℕ) → (String → ℕ) → ℕ → ℕ → (String → ℕ) → (String → ℕ) → ℕ → ℕ → Type 0
Moved a b la lb a' b' la' lb' =
    (la' + 1 ≡ la) × (lb' ≡ lb + 1) × ((id : String) → a' id + b' id ≡ a id + b id)

module _ (codec : Codec) (before : String → String → Bool) where
  open codec use {unmarshal}

  module _ (m n : String) (i j : QueueItem) (um : unmarshal m ≡ some i) (un : unmarshal n ≡ some j)
      (same : j.id ≡ i.id) where
    own : carries codec i.id n ≡ 1
    own = omega (arith, carries_own codec m i um, carries_same codec i.id m n i j um un same)

    alike : (id : String) → carries codec id n ≡ carries codec id m
    alike id = carries_same codec id m n i j um un same

    pub move_set :
        (from to : List String)
        → has m from ≡ true
        → ids codec i.id from + ids codec i.id to ≤ 1
        → Moved
            (λ id. ids codec id from)
            (λ id. ids codec id to)
            (length from)
            (length to)
            (λ id. ids codec id (remove m from))
            (λ id. ids codec id (insert n to))
            (length (remove m from))
            (length (insert n to))
    move_set from to here once =
        let gone = λ (id : String). ids-remove codec id m from here in
        let free : ids codec i.id to ≡ 0 = omega (arith, gone i.id, carries_own codec m i um) in
        let came = λ (id : String). insert_fresh codec i.id id n to own free in
        (
          length-remove m from here,
          (came "").0,
          λ id. omega (arith, gone id, (came id).1, alike id),
        )

    pub move_set_sorted :
        (score : ℤ) (from : List String) (to : Sorted)
        → has m from ≡ true
        → ids codec i.id from + zids codec i.id to ≤ 1
        → Moved
            (λ id. ids codec id from)
            (λ id. zids codec id to)
            (length from)
            (length to)
            (λ id. ids codec id (remove m from))
            (λ id. zids codec id (zinsert before score n to))
            (length (remove m from))
            (length (zinsert before score n to))
    move_set_sorted score from to here once =
        let gone = λ (id : String). ids-remove codec id m from here in
        let free : zids codec i.id to ≡ 0 = omega (arith, gone i.id, carries_own codec m i um) in
        let came = λ (id : String). zinsert_fresh codec before i.id id score n to own free in
        (
          length-remove m from here,
          (came "").0,
          λ id. omega (arith, gone id, (came id).1, alike id),
        )

    pub move_sorted :
        (score : ℤ) (from to : Sorted)
        → zhas m from ≡ true
        → zids codec i.id from + zids codec i.id to ≤ 1
        → Moved
            (λ id. zids codec id from)
            (λ id. zids codec id to)
            (length from)
            (length to)
            (λ id. zids codec id (discard m from))
            (λ id. zids codec id (zinsert before score n to))
            (length (discard m from))
            (length (zinsert before score n to))
    move_sorted score from to here once =
        let gone = λ (id : String). zids-discard codec id m from here in
        let free : zids codec i.id to ≡ 0 = omega (arith, gone i.id, carries_own codec m i um) in
        let came = λ (id : String). zinsert_fresh codec before i.id id score n to own free in
        (
          length-discard m from here,
          (came "").0,
          λ id. omega (arith, gone id, (came id).1, alike id),
        )

    -- The first member of a sorted set is taken out.
    pub move_first :
        (score : ℤ) (rest : Sorted) (to : List String)
        → carries codec i.id m + zids codec i.id rest + ids codec i.id to ≤ 1
        → (length (insert n to) ≡ length to + 1)
          × ((id : String)
              → zids codec id rest + ids codec id (insert n to)
                ≡ carries codec id m + zids codec id rest + ids codec id to)
    move_first score rest to once =
        let free : ids codec i.id to ≡ 0 = omega (arith, carries_own codec m i um) in
        let came = λ (id : String). insert_fresh codec i.id id n to own free in
        ((came "").0, λ id. omega (arith, (came id).1, alike id))

    -- The item changes and stays where it is.
    pub rewrite_set :
        (l : List String)
        → has m l ≡ true
        → ids codec i.id l ≤ 1
        → (length (insert n (remove m l)) ≡ length l)
          × ((id : String) → ids codec id (insert n (remove m l)) ≡ ids codec id l)
    rewrite_set l here once =
        let gone = λ (id : String). ids-remove codec id m l here in
        let free : ids codec i.id (remove m l) ≡ 0 =
          omega (arith, gone i.id, carries_own codec m i um) in
        let came = λ (id : String). insert_fresh codec i.id id n (remove m l) own free in
        (
          omega (arith, length-remove m l here, (came "").0),
          λ id. omega (arith, gone id, (came id).1, alike id),
        )
