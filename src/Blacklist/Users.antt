-- ===== src/Blacklist/Users.antt =====
-- What pkg/jwt/blacklist.go does to revoke all tokens of a user.
use engine_api_workflow.Common.{
  if_false, subst, ◌∙◌, ap, sym, inl, inr, ℕ, ◌≡◌, refl, String, true, false, List, [], ◌∷◌, ◌++◌,
  Option, none, some, All, arith, is_some, str_eq, Bool-cases,
}
use engine_api_workflow.Worker.Retry.{starts_with, codes}
use engine_api_workflow.Blacklist.{
  Bytes, Redis, Claims, same, hex, get_blacklist_key, revoke, user_pattern, revoke_keys,
  blacklist_token_with_reason, blacklist_all_user_tokens,
}
use engine_api_workflow.Blacklist.Keys.{AreBytes}
use engine_api_workflow.Blacklist.Revoked.{Answers, IsOpen, revoke-lookup, with_reason_lem}

-- A call of BlacklistTokenWithReason, and when its token expires.
pub record Revocation : Type 0 where
  pub now : ℕ
  pub expires : ℕ
  pub token : Bytes
  pub reason : String

unfoldable pub revoke_each :
    (R : Redis) → (Bytes → Option Claims) → Bytes → List Revocation → R.State → R.State
revoke_each R parse prefix [] s = s
revoke_each R parse prefix (r ∷ l) s =
    revoke_each R parse prefix l
      (blacklist_token_with_reason R parse prefix r.now r.token r.reason s).1

same_eq : (k j : Bytes) → same k j ≡ true → k ≡ j
unfolding same
same_eq [] [] h = refl
same_eq [] (c ∷ cs) h = absurd (ground (arith, h))
same_eq (b ∷ bs) [] h = absurd (ground (arith, h))
same_eq (b ∷ bs) (c ∷ cs) h =
    let first : b ≡ c = ground (arith, h) in
    let rest = same_eq bs cs (ground (arith, h)) in ap (λ x. x ∷ bs) first ∙ ap (λ l. c ∷ l) rest

-- The pattern of a user's tokens has a `u` where the key of a token has a digit.
pattern_misses :
    (prefix rest t : Bytes)
    → AreBytes t
    → starts_with (prefix ++ (117 ∷ rest)) (prefix ++ hex t) ≡ false
unfolding starts_with hex
pattern_misses [] rest [] h = refl
pattern_misses [] rest (b ∷ bs) (h, all) = ground (arith, h)
pattern_misses (p ∷ prefix) rest t h =
    let below = pattern_misses prefix rest t h in ground (arith, below)

module _ (R : Redis) (parse : Bytes → Option Claims) (prefix : Bytes) (ok : Answers R) where
  -- All keys are those of tokens.
  abbrev pub HoldsTokens : R.State → Type 0
  HoldsTokens s =
      (k : Bytes)
      → is_some (R.lookup k s) ≡ true
      → (t : Bytes) × AreBytes t × (k ≡ get_blacklist_key prefix t)

  revoked-HoldsTokens :
      (now expires : ℕ) (token : Bytes) (reason : String) (s : R.State)
      → IsOpen parse token now expires
      → HoldsTokens s
      → HoldsTokens (blacklist_token_with_reason R parse prefix now token reason s).1
  revoked-HoldsTokens now expires token reason s o holds k there =
      let (r, revoked) = with_reason_lem R parse prefix ok now expires token reason s o in
      let key = get_blacklist_key prefix token in
      let s' = (revoke R parse prefix now token r (parse token) s).1 in
      let live : is_some (R.lookup k s') ≡ true =
        subst (λ p. is_some (R.lookup k p.1) ≡ true) revoked there in
      let looked = revoke-lookup R parse prefix ok now expires token k r s o in
      elim (Bool-cases (same key k)) [
        | inl new ↦ (token, o.bytes, sym (same_eq key k new))
        | inr old ↦ holds k (sym (ap is_some (looked ∙ if_false _ _ old)) ∙ live)
      ]

  -- No key passes the pattern of a user.
  no_user_keys :
      (now : ℕ) (user_id : String) (s : R.State) (l : List Bytes)
      → HoldsTokens s
      → All
          (λ k.
            (starts_with (user_pattern prefix user_id) k ≡ true) × (is_some (R.lookup k s) ≡ true))
          l
      → l ≡ []
  unfolding get_blacklist_key
  no_user_keys now user_id s [] holds all = refl
  no_user_keys now user_id s (k ∷ l) holds ((matched, there), all) =
      let (t, bytes, key) = holds k there in
      let missed : starts_with (user_pattern prefix user_id) k ≡ false =
        rw key (pattern_misses prefix (codes "ser:" ++ (codes user_id ++ codes ":")) t bytes) in
      absurd (ground (arith, matched, missed))

  revoke_each-HoldsTokens :
      (l : List Revocation) (s : R.State)
      → All (λ r. IsOpen parse r.token r.now r.expires) l
      → HoldsTokens s
      → HoldsTokens (revoke_each R parse prefix l s)
  unfolding revoke_each
  revoke_each-HoldsTokens [] s all holds = holds
  revoke_each-HoldsTokens (r ∷ l) s (o, all) holds =
      revoke_each-HoldsTokens l
        (blacklist_token_with_reason R parse prefix r.now r.token r.reason s).1 all
        (revoked-HoldsTokens r.now r.expires r.token r.reason s o holds)

  idle :
      (now : ℕ) (user_id reason : String) (s : R.State)
      → HoldsTokens s
      → (blacklist_all_user_tokens R parse prefix now user_id reason s).1 ≡ s
  unfolding blacklist_all_user_tokens
  idle now user_id reason s holds = elim (Bool-cases (str_eq user_id "")) [
    | inl no_id ↦ rw (no_id, blacklist_all_user_tokens) refl
    | inr given ↦
        rw (given, blacklist_all_user_tokens)
          (go (R.keys now (starts_with (user_pattern prefix user_id)) s) refl)
  ]
    where
      go :
          (o : Option (List Bytes))
          → R.keys now (starts_with (user_pattern prefix user_id)) s ≡ o
          → (revoke_keys R parse prefix now reason o s).1 ≡ s
      go none e = refl
      go (some l) e =
          let nothing =
            no_user_keys now user_id s l holds
              (R.keys-lookup now (starts_with (user_pattern prefix user_id)) s l e) in
          rw nothing refl

  -- Where no call fails, from a server whose keys are all those of tokens, as an empty one: after any
  -- tokens that had not expired were revoked, to revoke all tokens of a user, whoever it is, changes nothing.
  pub blacklist_all_user_tokens-idle :
      (l : List Revocation) (now : ℕ) (user_id reason : String) (s : R.State)
      → All (λ r. IsOpen parse r.token r.now r.expires) l
      → HoldsTokens s
      → (blacklist_all_user_tokens R parse prefix now user_id reason
          (revoke_each R parse prefix l s)).1
        ≡ revoke_each R parse prefix l s
  blacklist_all_user_tokens-idle l now user_id reason s all holds =
      idle now user_id reason (revoke_each R parse prefix l s)
        (revoke_each-HoldsTokens l s all holds)
