-- ===== src/Worker/Retry/Search.antt =====
-- The search for a pattern in an error message.
use engine_api_workflow.Common.{
  ℕ, zero, suc, ◌+◌, ◌-◌, ◌≡◌, ◌≤◌, refl, ap, ◌∙◌, ◌↔◌, List, [], ◌∷◌, ◌++◌, true, arith, length,
  length-append, Bool-cases, inl, inr,
}
use engine_api_workflow.Worker.Retry.{starts_with, search_from, simple_contains}

starts_with-append : (p r : List ℕ) → starts_with p (p ++ r) ≡ true
unfolding starts_with
starts_with-append [] r = refl
starts_with-append (x ∷ p) r = ground (arith, starts_with-append p r)

-- What is left after a prefix.
starts_with-rest : (p str : List ℕ) → starts_with p str ≡ true → (r : List ℕ) × (str ≡ p ++ r)
unfolding starts_with
starts_with-rest [] str h = (str, refl)
starts_with-rest (x ∷ p) [] h = absurd (cc)
starts_with-rest (x ∷ p) (c ∷ cs) h =
    let (r, e) = starts_with-rest p cs (ground arith) in (r, ground arith)

search_from-found :
    (k : ℕ) (sub str : List ℕ)
    → search_from k sub str ≡ true
    → (pre : List ℕ) × (post : List ℕ) × (str ≡ pre ++ (sub ++ post))
unfolding search_from
search_from-found zero sub str h = absurd (cc)
search_from-found (suc k) sub [] h = let (r, e) = starts_with-rest sub [] h in ([], r, e)
search_from-found (suc k) sub (c ∷ cs) h = elim (Bool-cases (starts_with sub (c ∷ cs))) [
  | inl here ↦ let (r, e) = starts_with-rest sub (c ∷ cs) here in ([], r, e)
  | inr on ↦
      let (pre, post, e) = search_from-found k sub cs (ground arith) in
      (c ∷ pre, post, ap (◌∷◌ c) e)
]

search_from-finds :
    (k : ℕ) (pre sub post : List ℕ)
    → length pre + 1 ≤ k
    → search_from k sub (pre ++ (sub ++ post)) ≡ true
unfolding search_from
search_from-finds zero pre sub post h = absurd (omega arith)
search_from-finds (suc k) [] sub post h = here sub post (starts_with-append sub post)
  where
    here :
        (sub post : List ℕ)
        → starts_with sub (sub ++ post) ≡ true
        → search_from (suc k) sub (sub ++ post) ≡ true
    here [] [] h = h
    here [] (c ∷ cs) h = ground arith
    here (x ∷ xs) cs h = ground arith
search_from-finds (suc k) (c ∷ pre) sub post h =
    ground (arith, search_from-finds k pre sub post (omega arith))

-- The search answers true exactly if the text is something, the pattern, and something.
pub simple_contains_iff :
    (str sub : List ℕ)
    → (simple_contains str sub ≡ true)
      ↔ ((pre : List ℕ) × (post : List ℕ) × (str ≡ pre ++ (sub ++ post)))
unfolding simple_contains
simple_contains_iff str sub = (
  λ h. search_from-found (length str - length sub + 1) sub str (ground arith),
  λ (pre, post, e). finds pre post e,
)
  where
    finds : (pre post : List ℕ) → str ≡ pre ++ (sub ++ post) → simple_contains str sub ≡ true
    finds pre post e =
        let long : length str ≡ length pre + (length sub + length post) =
          ap length e ∙ (omega (arith, length-append pre (sub ++ post), length-append sub post)) in
        let found : search_from (length str - length sub + 1) sub str ≡ true =
          ap (search_from (length str - length sub + 1) sub) e
          ∙ search_from-finds (length str - length sub + 1) pre sub post (omega (arith, long)) in
        ground (arith, found, long)
