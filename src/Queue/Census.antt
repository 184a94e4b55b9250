-- ===== src/Queue/Census.antt =====
-- Where the items of the queue are: how many members of a collection carry a given item ID, and
-- what adding and removing a member does to that number and to the size.
use engine_api_workflow.Common.{
  inr, inl, ℕ, ◌+◌, ◌≡◌, ◌⊎◌, refl, ap, ◌∙◌, ℤ, String, List, [], ◌∷◌, Bool, true, false, none,
  some, arith, length, str_eq, str_eq_iff, if◌then◌else◌, ◌||◌,
}
use engine_api_workflow.Queue.Redis.{Sorted, View, discard, remove, has, insert, place, zinsert}
use engine_api_workflow.Queue.Item.{QueueItem, Codec}
use engine_api_workflow.Queue.Pipelines.{find_item}

unfoldable pub zhas : String → Sorted → Bool
zhas m [] = false
zhas m ((s, n) ∷ l) = str_eq n m || zhas m l

pub length-remove :
    (m : String) (l : List String) → has m l ≡ true → length (remove m l) + 1 ≡ length l
unfolding has remove
length-remove m [] h = absurd (cc)
length-remove m (n ∷ l) h = ground (arith, length-remove m l)

pub length-discard :
    (m : String) (l : Sorted) → zhas m l ≡ true → length (discard m l) + 1 ≡ length l
unfolding zhas discard
length-discard m [] h = absurd (cc)
length-discard m ((s, n) ∷ l) h = ground (arith, length-discard m l)

discard_absent : (m : String) (l : Sorted) → zhas m l ≡ false → discard m l ≡ l
unfolding zhas discard
discard_absent m [] h = refl
discard_absent m ((s, n) ∷ l) h = ground (arith, discard_absent m l)

module _ (codec : Codec) where
  open codec use {unmarshal}

  -- Whether a member decodes to an item with this ID, as a number.
  unfoldable pub carries : String → String → ℕ
  carries id m = elim (unmarshal m) [ none ↦ 0 | some i ↦ if str_eq i.id id then 1 else 0 ]

  unfoldable pub ids : String → List String → ℕ
  ids id [] = 0
  ids id (m ∷ l) = carries id m + ids id l

  unfoldable pub zids : String → Sorted → ℕ
  zids id [] = 0
  zids id ((s, m) ∷ l) = carries id m + zids id l

  unfoldable pub holders : String → View → ℕ
  holders id v =
      zids id v.queue + zids id v.later + ids id v.running + ids id v.done + ids id v.dead

  pub carries_own : (m : String) (i : QueueItem) → unmarshal m ≡ some i → carries i.id m ≡ 1
  unfolding carries
  carries_own m i h = ground (arith, str_eq_iff i.id i.id)

  pub carries_cases :
      (id m : String) (i : QueueItem)
      → unmarshal m ≡ some i
      → (carries id m ≡ 0) ⊎ ((carries id m ≡ 1) × (i.id ≡ id))
  unfolding carries
  carries_cases id m i h = ground (arith, str_eq_iff i.id id)

  pub carries_same :
      (id m n : String) (i j : QueueItem)
      → unmarshal m ≡ some i
      → unmarshal n ≡ some j
      → j.id ≡ i.id
      → carries id n ≡ carries id m
  unfolding carries
  carries_same id m n i j h k e = ground arith

  pub ids-remove :
      (id m : String) (l : List String)
      → has m l ≡ true
      → ids id (remove m l) + carries id m ≡ ids id l
  unfolding has remove ids
  ids-remove id m [] h = absurd (cc)
  ids-remove id m (n ∷ l) h = ground (arith, ids-remove id m l, str_eq_iff n m)

  pub zids-discard :
      (id m : String) (l : Sorted)
      → zhas m l ≡ true
      → zids id (discard m l) + carries id m ≡ zids id l
  unfolding zhas discard zids
  zids-discard id m [] h = absurd (cc)
  zids-discard id m ((s, n) ∷ l) h = ground (arith, zids-discard id m l, str_eq_iff n m)

  absent : (id m : String) (l : List String) → carries id m ≡ 1 → ids id l ≡ 0 → has m l ≡ false
  unfolding has ids
  absent id m [] c h = refl
  absent id m (n ∷ l) c h = ground (arith, absent id m l, str_eq_iff n m)

  zabsent : (id m : String) (l : Sorted) → carries id m ≡ 1 → zids id l ≡ 0 → zhas m l ≡ false
  unfolding zhas zids
  zabsent id m [] c h = refl
  zabsent id m ((s, n) ∷ l) c h = ground (arith, zabsent id m l, str_eq_iff n m)

  -- A member whose ID is not in the set yet is added to it.
  pub insert_fresh :
      (own id m : String) (l : List String)
      → carries own m ≡ 1
      → ids own l ≡ 0
      → (length (insert m l) ≡ length l + 1) × (ids id (insert m l) ≡ ids id l + carries id m)
  unfolding insert ids
  insert_fresh own id m l c h = rw (absent own m l c h) (omega arith, omega arith)

  module _ (before : String → String → Bool) where
    length-place :
        (score : ℤ) (m : String) (l : Sorted) → length (place before score m l) ≡ length l + 1
    unfolding place
    length-place score m [] = omega arith
    length-place score m ((s, n) ∷ l) = ground (arith, length-place score m l)

    zids-place :
        (id : String) (score : ℤ) (m : String) (l : Sorted)
        → zids id (place before score m l) ≡ zids id l + carries id m
    unfolding place zids
    zids-place id score m [] = omega arith
    zids-place id score m ((s, n) ∷ l) = ground (arith, zids-place id score m l)

    pub zinsert_fresh :
        (own id : String) (score : ℤ) (m : String) (l : Sorted)
        → carries own m ≡ 1
        → zids own l ≡ 0
        → (length (zinsert before score m l) ≡ length l + 1)
          × (zids id (zinsert before score m l) ≡ zids id l + carries id m)
    unfolding zinsert
    zinsert_fresh own id score m l c h =
        rw (discard_absent m l (zabsent own m l c h))
          (length-place score m l, zids-place id score m l)

  -- What the search over the members of a set finds is there, and has the ID.
  pub find_item-some :
      (id m : String) (i : QueueItem) (ms : List String)
      → find_item codec id ms ≡ some (m, i)
      → (has m ms ≡ true) × (unmarshal m ≡ some i) × (i.id ≡ id)
  unfolding find_item has
  find_item-some id m i [] h = absurd (cc)
  find_item-some id m i (n ∷ ms) h =
      ground (arith, find_item-some id m i ms, str_eq_iff n m, str_eq_iff i.id id)

  -- Every member was written by the codec, from some item.
  abbrev pub AllWritten : Sorted → Type 0
  AllWritten l = (m : String) → zhas m l ≡ true → (i : QueueItem) × (codec.marshal i ≡ some m)

  module _ (before : String → String → Bool) where
    zhas-discard : (x m : String) (l : Sorted) → zhas x (discard m l) ≡ true → zhas x l ≡ true
    unfolding zhas discard
    zhas-discard x m [] h = h
    zhas-discard x m ((s, n) ∷ l) h = ground (arith, zhas-discard x m l)

    zhas-place :
        (x : String) (score : ℤ) (m : String) (l : Sorted)
        → zhas x (place before score m l) ≡ true
        → (m ≡ x) ⊎ (zhas x l ≡ true)
    unfolding zhas place
    zhas-place x score m [] h = ground (arith, str_eq_iff m x)
    zhas-place x score m ((s, n) ∷ l) h = ground (arith, zhas-place x score m l, str_eq_iff m x)

    pub zinsert-AllWritten :
        (score : ℤ) (m : String) (i : QueueItem) (l : Sorted)
        → codec.marshal i ≡ some m
        → AllWritten l
        → AllWritten (zinsert before score m l)
    unfolding zinsert
    zinsert-AllWritten score m i l w all x h = elim (zhas-place x score m (discard m l) h) [
      | inl same ↦ (i, w ∙ ap some same)
      | inr old ↦ all x (zhas-discard x m l old)
    ]

  pub rest-AllWritten :
      (score : ℤ) (m : String) (l : Sorted) → AllWritten ((score, m) ∷ l) → AllWritten l
  unfolding zhas
  rest-AllWritten score m l all x h = all x (ground arith)

  pub first-AllWritten :
      (score : ℤ) (m : String) (l : Sorted)
      → AllWritten ((score, m) ∷ l)
      → (i : QueueItem) × (codec.marshal i ≡ some m)
  unfolding zhas
  first-AllWritten score m l all = all m (ground (arith, str_eq_iff m m))
