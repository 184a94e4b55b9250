-- ===== src/Blacklist/Keys.antt =====
-- The keys of pkg/jwt/blacklist.go.
use engine_api_workflow.Common.{
  ap, ◌∙◌, ℕ, ◌/◌, ◌%◌, ◌<◌, ◌==◌, ◌≡◌, refl, ◌&&◌, Bool, [], ◌∷◌, ◌++◌, All, arith,
}
use engine_api_workflow.Blacklist.{Bytes, same, hex, hex_digit, get_blacklist_key}

abbrev pub AreBytes : Bytes → Type 0
AreBytes l = All (λ b. b < 256) l

same-prefix : (p k j : Bytes) → same (p ++ k) (p ++ j) ≡ same k j
unfolding same
same-prefix [] k j = refl
same-prefix (b ∷ p) k j = let rest = same-prefix p k j in ground (arith, rest)

-- Half bytes have different digits.
hex_digit_eq : (a b : ℕ) → a < 16 → b < 16 → (hex_digit a == hex_digit b) ≡ (a == b)
hex_digit_eq a b ha hb = ground (arith, ha, hb)

halves_eq :
    (b c : ℕ) (rest : Bool)
    → b < 256
    → c < 256
    → (hex_digit (b / 16) == hex_digit (c / 16)
        && (hex_digit (b % 16) == hex_digit (c % 16) && rest))
      ≡ (b == c && rest)
halves_eq b c rest hb hc =
    rw
      (
        hex_digit_eq (b / 16) (c / 16) (omega arith) (omega arith),
        hex_digit_eq (b % 16) (c % 16) (omega arith) (omega arith),
      )
      (ground (arith, hb, hc))

same-hex : (t u : Bytes) → AreBytes t → AreBytes u → same (hex t) (hex u) ≡ same t u
unfolding same hex
same-hex [] [] ht hu = refl
same-hex [] (c ∷ cs) ht hu = refl
same-hex (b ∷ bs) [] ht hu = refl
same-hex (b ∷ bs) (c ∷ cs) (hb, ht) (hc, hu) =
    halves_eq b c (same (hex bs) (hex cs)) hb hc ∙ ap (λ r. b == c && r) (same-hex bs cs ht hu)

-- Two tokens have the same key only if they are the same.
pub same-get_blacklist_key :
    (p t u : Bytes)
    → AreBytes t
    → AreBytes u
    → same (get_blacklist_key p t) (get_blacklist_key p u) ≡ same t u
unfolding get_blacklist_key
same-get_blacklist_key p t u ht hu = same-prefix p (hex t) (hex u) ∙ same-hex t u ht hu
