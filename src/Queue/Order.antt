-- ===== src/Queue/Order.antt =====
-- The order of the queue: a sorted set stays sorted, so what Dequeue takes first has the highest
-- priority.
use engine_api_workflow.Common.{
  ◌≡◌, sym, ap, subst, ◌∙◌, some, inl, inr, Bool-cases, str_eq_iff, ◌&&◌, ◌||◌, ℤ, neg, ◌≤ℤ◌,
  String, [], ◌∷◌, Bool, true, arith, ltb_ℤ, leb_ℤ, str_eq,
}
use engine_api_workflow.Queue.Item.{QueueItem, Codec}
use engine_api_workflow.Queue.Census.{zhas}
use engine_api_workflow.Queue.Redis.{Sorted, discard, place, zinsert}

-- Every score of the list is at least this one.
abbrev pub FromScore : ℤ → Sorted → Type 0
FromScore s [] = Unit {0}
FromScore s ((t, m) ∷ l) = (s ≤ℤ t) × FromScore s l

abbrev pub IsSorted : Sorted → Type 0
IsSorted [] = Unit {0}
IsSorted ((s, m) ∷ l) = FromScore s l × IsSorted l

FromScore-mono : (s t : ℤ) (l : Sorted) → s ≤ℤ t → FromScore t l → FromScore s l
FromScore-mono s t [] h f = tt
FromScore-mono s t ((u, m) ∷ l) h f = (omega arith, FromScore-mono s t l h f.1)

FromScore-discard : (s : ℤ) (m : String) (l : Sorted) → FromScore s l → FromScore s (discard m l)
unfolding discard
FromScore-discard s m [] f = tt
FromScore-discard s m ((t, n) ∷ l) f = ground (arith, FromScore-discard s m l f.1)

discard-IsSorted : (m : String) (l : Sorted) → IsSorted l → IsSorted (discard m l)
unfolding discard
discard-IsSorted m [] h = tt
discard-IsSorted m ((t, n) ∷ l) h =
    ground (arith, discard-IsSorted m l h.1, FromScore-discard t m l h.0)

module _ (before : String → String → Bool) where
  FromScore-place :
      (s t : ℤ) (m : String) (l : Sorted)
      → s ≤ℤ t
      → FromScore s l
      → FromScore s (place before t m l)
  unfolding place
  FromScore-place s t m [] h f = (h, tt)
  FromScore-place s t m ((u, n) ∷ l) h f = ground (arith, FromScore-place s t m l h f.1)

  place-IsSorted : (t : ℤ) (m : String) (l : Sorted) → IsSorted l → IsSorted (place before t m l)
  unfolding place
  place-IsSorted t m [] h = (tt, tt)
  place-IsSorted t m ((u, n) ∷ l) h =
      ground (arith, place-IsSorted t m l h.1, FromScore-mono t u l, FromScore-place u t m l)

  pub zinsert-IsSorted :
      (t : ℤ) (m : String) (l : Sorted) → IsSorted l → IsSorted (zinsert before t m l)
  unfolding zinsert
  zinsert-IsSorted t m l h = place-IsSorted t m (discard m l) (discard-IsSorted m l h)

same_item : {i j : QueueItem} → some i ≡ some j → i ≡ j
same_item h = cc

-- Each member stands at the negated priority of the item that it decodes to.
abbrev pub HasRanks : Codec → Sorted → Type 0
HasRanks codec [] = Unit {0}
HasRanks codec ((s, m) ∷ l) =
    ((i : QueueItem) → codec.unmarshal m ≡ some i → s ≡ neg i.priority) × HasRanks codec l

abbrev pub IsRanked : Codec → Sorted → Type 0
IsRanked codec l = IsSorted l × HasRanks codec l

module _ (codec : Codec) where
  HasRanks-discard : (m : String) (l : Sorted) → HasRanks codec l → HasRanks codec (discard m l)
  unfolding discard
  HasRanks-discard m [] h = tt
  HasRanks-discard m ((t, n) ∷ l) h = elim (Bool-cases (str_eq n m)) [
    | inl e ↦ rw e h.1
    | inr e ↦ rw e (h.0, HasRanks-discard m l h.1)
  ]

  HasRanks-place :
      (before : String → String → Bool) (t : ℤ) (m : String) (l : Sorted)
      → ((i : QueueItem) → codec.unmarshal m ≡ some i → t ≡ neg i.priority)
      → HasRanks codec l
      → HasRanks codec (place before t m l)
  unfolding place
  HasRanks-place before t m [] r h = (r, tt)
  HasRanks-place before t m ((u, n) ∷ l) r h =
      elim (Bool-cases (ltb_ℤ t u || (leb_ℤ t u && before m n))) [
        | inl e ↦ rw e (r, h)
        | inr e ↦ rw e (h.0, HasRanks-place before t m l r h.1)
      ]

  pub zinsert-IsRanked :
      (before : String → String → Bool) (t : ℤ) (m : String) (i : QueueItem) (l : Sorted)
      → codec.marshal i ≡ some m
      → t ≡ neg i.priority
      → IsRanked codec l
      → IsRanked codec (zinsert before t m l)
  unfolding zinsert
  zinsert-IsRanked before t m i l w e h = (
    place-IsSorted before t m (discard m l) (discard-IsSorted m l h.0),
    HasRanks-place before t m (discard m l)
        (λ j u.
          e
          ∙ ap (λ (x : QueueItem). neg x.priority)
              (same_item (sym (codec.unmarshal-marshal i m w) ∙ u)))
        (HasRanks-discard m l h.1),
  )

  neg-antitone : (a b : ℤ) → neg a ≤ℤ neg b → b ≤ℤ a
  neg-antitone a b h = ground arith

  FromScore-rank :
      (s : ℤ) (l : Sorted) (x : String) (k : QueueItem)
      → FromScore s l
      → HasRanks codec l
      → zhas x l ≡ true
      → codec.unmarshal x ≡ some k
      → s ≤ℤ neg k.priority
  unfolding zhas
  FromScore-rank s [] x k f h here u = absurd (cc)
  FromScore-rank s ((t, n) ∷ l) x k f h here u = elim (Bool-cases (str_eq n x)) [
    | inl e ↦
        let same = (str_eq_iff n x).0 e in
        subst (λ z. s ≤ℤ z) (h.0 k (ap codec.unmarshal same ∙ u)) f.0
    | inr e ↦ FromScore-rank s l x k f.1 h.1 (ground arith) u
  ]

  -- In a ranked set the first item has the highest priority.
  pub first_highest :
      (s : ℤ) (m x : String) (l : Sorted) (i k : QueueItem)
      → IsRanked codec ((s, m) ∷ l)
      → codec.unmarshal m ≡ some i
      → codec.unmarshal x ≡ some k
      → zhas x ((s, m) ∷ l) ≡ true
      → k.priority ≤ℤ i.priority
  unfolding zhas
  first_highest s m x l i k h um ux here = elim (Bool-cases (str_eq m x)) [
    | inl e ↦
        let same = same_item (sym um ∙ ap codec.unmarshal ((str_eq_iff m x).0 e) ∙ ux) in
        subst (λ (z : QueueItem). z.priority ≤ℤ i.priority) same (omega arith)
    | inr e ↦ neg-antitone i.priority k.priority (
        subst (λ z. z ≤ℤ neg k.priority) (h.1.0 i um)
          (FromScore-rank s l x k h.0.0 h.1.1 (ground arith) ux))
  ]
