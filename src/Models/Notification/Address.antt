-- ===== src/Models/Notification/Address.antt =====
-- The pattern of an address, emailRegex of internal/models/notification.go, by its parts.
use Prim.Native.Char.{Char, code}
use engine_api_workflow.Common.{
  ◌⊎◌, subst, length, ℕ, zero, suc, ◌-◌, ◌≤◌, String, ◌≡◌, refl, sym, ap, ◌∙◌, ◌↔◌, Bool, true,
  false, ◌&&◌, ◌||◌, List, [], ◌∷◌, ◌++◌, arith, all, ◌==◌, inl, inr, Bool-cases,
}
use engine_api_workflow.Models.Notification.Pattern.{
  is_letter, is_domain_code, is_local_code, matches_letters, matches_domain, matches_local,
  matches_email,
}

-- The characters' codes.
unfoldable pub codes : String → List ℕ
codes String.[] = []
codes (String.◌∷◌ c s) = code c ∷ codes s

-- It has at least `k` characters, all of them letters.
letters_iff :
    (k : ℕ) (s : String)
    → (matches_letters k s ≡ true) ↔ ((k ≤ length (codes s)) × (all is_letter (codes s) ≡ true))
unfolding matches_letters codes
letters_iff zero String.[] = (λ h. (omega arith, refl), λ h. refl)
letters_iff (suc k) String.[] =
    (λ h. absurd (ground (arith, h)), λ (h, x). absurd (ground (arith, h)))
letters_iff k (String.◌∷◌ c s) =
    let (forth, back) = letters_iff (k - 1) s in
    (
      λ h.
          let rest : matches_letters (k - 1) s ≡ true = ground (arith, h) in
          let (long, all_rest) = forth rest in (omega (arith, long), ground (arith, h, all_rest)),
      λ (long, h).
          let all_rest : all is_letter (codes s) ≡ true = ground (arith, h) in
          let rest = back (omega (arith, long), all_rest) in ground (arith, h, rest),
    )

-- Characters of one class, at least one unless `b` says that some came before, a separator, and what
-- follows.
abbrev SplitsAt : Bool → (ℕ → Bool) → ℕ → (List ℕ → Type 0) → List ℕ → Type 0
SplitsAt b p sep Rest l =
    (part rest : List ℕ) × (l ≡ part ++ sep ∷ rest)
    × (all p part ≡ true)
    × ((b ≡ true) ⊎ (1 ≤ length part))
    × Rest rest

module _ (p : ℕ → Bool) (sep : ℕ) (next : String → Bool) (Rest : List ℕ → Type 0)
    (next_iff : (s : String) → (next s ≡ true) ↔ Rest (codes s)) (f : Bool → String → Bool)
    (f_nil : (b : Bool) → f b "" ≡ false)
    (f_cons : (b : Bool) (c : Char) (s : String)
      → f b (String.◌∷◌ c s) ≡ ((b && code c == sep && next s) || (p (code c) && f true s))) where
  to_parts : (s : String) (b : Bool) → f b s ≡ true → SplitsAt b p sep Rest (codes s)
  unfolding codes
  to_parts String.[] b h = let e = f_nil b in absurd (ground (arith, h, e))
  to_parts (String.◌∷◌ c s) b h =
      let e = f_cons b c s in
      elim (Bool-cases (b && code c == sep && next s)) [
        | inl ends ↦
            let before : b ≡ true = ground (arith, ends) in
            let here : code c ≡ sep = ground (arith, ends) in
            let after : next s ≡ true = ground (arith, ends) in
            ([], codes s, ap (λ x. x ∷ codes s) here, refl, inl before, (next_iff s).0 after)
        | inr goes ↦
            let fits : p (code c) ≡ true = ground (arith, h, e, goes) in
            let later : f true s ≡ true = ground (arith, h, e, goes) in
            let (part, rest, same, fit, some_before, follows) = to_parts s true later in
            (
              code c ∷ part,
              rest,
              ap (λ l. code c ∷ l) same,
              ground (arith, fits, fit),
              inr (omega arith),
              follows,
            )
      ]

  from_parts : (s : String) (b : Bool) → SplitsAt b p sep Rest (codes s) → f b s ≡ true
  unfolding codes
  from_parts String.[] b ([], rest, same, fit, some_before, follows) = absurd (ground (arith, same))
  from_parts String.[] b (x ∷ part, rest, same, fit, some_before, follows) =
      absurd (ground (arith, same))
  from_parts (String.◌∷◌ c s) b ([], rest, same, fit, some_before, follows) =
      let e = f_cons b c s in
      let here : code c ≡ sep = ground (arith, same) in
      let tail : codes s ≡ rest = ground (arith, same) in
      let before : b ≡ true = elim some_before [ inl h ↦ h | inr h ↦ absurd (ground (arith, h)) ] in
      let after = (next_iff s).1 (subst Rest (sym tail) follows) in
      ground (arith, e, here, before, after)
  from_parts (String.◌∷◌ c s) b (x ∷ part, rest, same, fit, some_before, follows) =
      let e = f_cons b c s in
      let here : code c ≡ x = ground (arith, same) in
      let tail : codes s ≡ part ++ sep ∷ rest = ground (arith, same) in
      let fits : p x ≡ true = ground (arith, fit) in
      let fit_rest : all p part ≡ true = ground (arith, fit) in
      let later = from_parts s true (part, rest, tail, fit_rest, inl refl, follows) in
      let now : p (code c) ≡ true = ap p here ∙ fits in ground (arith, e, now, later)

-- The part after the last point: two letters at least.
abbrev pub IsTop : List ℕ → Type 0
IsTop l = (2 ≤ length l) × (all is_letter l ≡ true)

abbrev pub IsDomain : List ℕ → Type 0
IsDomain l =
    (part rest : List ℕ) × (l ≡ part ++ b'.' ∷ rest)
    × (all is_domain_code part ≡ true)
    × (1 ≤ length part)
    × IsTop rest

abbrev pub IsAddress : List ℕ → Type 0
IsAddress l =
    (part rest : List ℕ) × (l ≡ part ++ b'@' ∷ rest)
    × (all is_local_code part ≡ true)
    × (1 ≤ length part)
    × IsDomain rest

no_first : (b : Bool) (n : ℕ) → b ≡ false → (b ≡ true) ⊎ (1 ≤ n) → 1 ≤ n
no_first b n h (inl e) = absurd (ground (arith, h, e))
no_first b n h (inr e) = e

domain_to :
    (b : Bool) (s : String)
    → matches_domain b s ≡ true
    → SplitsAt b is_domain_code b'.' IsTop (codes s)
unfolding matches_domain
domain_to b s =
    to_parts is_domain_code b'.' (matches_letters 2) IsTop (letters_iff 2) matches_domain
      (λ b. refl) (λ b c s. refl) s b

domain_from :
    (b : Bool) (s : String)
    → SplitsAt b is_domain_code b'.' IsTop (codes s)
    → matches_domain b s ≡ true
unfolding matches_domain
domain_from b s =
    from_parts is_domain_code b'.' (matches_letters 2) IsTop (letters_iff 2) matches_domain
      (λ b. refl) (λ b c s. refl) s b

matches_domain_iff : (s : String) → (matches_domain false s ≡ true) ↔ IsDomain (codes s)
matches_domain_iff s = (
  λ h.
      let (part, rest, same, fit, before, follows) = domain_to false s h in
      (part, rest, same, fit, no_first false (length part) refl before, follows),
  λ (part, rest, same, fit, some_part, follows).
      domain_from false s (part, rest, same, fit, inr some_part, follows),
)

local_to :
    (s : String)
    → matches_local false s ≡ true
    → SplitsAt false is_local_code b'@' IsDomain (codes s)
unfolding matches_local
local_to s =
    to_parts is_local_code b'@' (matches_domain false) IsDomain matches_domain_iff matches_local
      (λ b. refl) (λ b c s. refl) s false

local_from :
    (s : String)
    → SplitsAt false is_local_code b'@' IsDomain (codes s)
    → matches_local false s ≡ true
unfolding matches_local
local_from s =
    from_parts is_local_code b'@' (matches_domain false) IsDomain matches_domain_iff matches_local
      (λ b. refl) (λ b c s. refl) s false

-- A text has the form of an address exactly when it is a part before an @, of letters, digits and ._%+-,
-- a part before a point, of letters, digits, points and dashes, both with a character at least, and two or
-- more letters.
pub matches_email_iff : (s : String) → (matches_email s ≡ true) ↔ IsAddress (codes s)
matches_email_iff s = (
  λ h.
      let (part, rest, same, fit, before, follows) = local_to s h in
      (part, rest, same, fit, no_first false (length part) refl before, follows),
  λ (part, rest, same, fit, some_part, follows).
      local_from s (part, rest, same, fit, inr some_part, follows),
)
