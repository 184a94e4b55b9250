-- ===== src/Blacklist/Revoked.antt =====
-- What pkg/jwt/blacklist.go answers of a token after tokens were revoked.
use engine_api_workflow.Common.{
  if_true, ◌∙◌, ap, sym, lt→ltb, inl, inr, ℕ, ◌+◌, ◌-◌, ◌≤◌, ◌<◌, ◌≡◌, refl, String, Bool, true,
  false, [], ◌∷◌, Option, some, ltb, arith, is_empty, is_some, str_eq, Bool-cases, Option-cases,
  if◌then◌else◌,
}
use engine_api_workflow.Models.Value.{Fields, second}
use engine_api_workflow.Blacklist.{
  Bytes, Redis, Claims, same, get_blacklist_key, is_live, forgotten_at, revoke, token_info,
  blacklist_token, blacklist_token_with_reason, is_blacklisted,
}
use engine_api_workflow.Blacklist.Keys.{AreBytes, same-get_blacklist_key}

-- No call fails.
pub record Answers (R : Redis) : Type 0 where
  pub sets :
      (k : Bytes) (info : Fields) (expires : ℕ) (s : R.State)
      → (R.set_until k info expires s).0 ≡ true
  pub tells : (now : ℕ) (k : Bytes) (s : R.State) → is_some (R.exists now k s) ≡ true

-- A token that is parsed to claims which expire at a time after `now`.
pub record IsOpen (parse : Bytes → Option Claims) (token : Bytes) (now expires : ℕ) : Type 0 where
  pub claims : Claims
  pub parsed : parse token ≡ some claims
  pub expiry : claims.expires_at ≡ some expires
  pub later : now < expires
  pub given : is_empty token ≡ false
  pub bytes : AreBytes token

same_refl : (t : Bytes) → same t t ≡ true
unfolding same
same_refl [] = refl
same_refl (b ∷ bs) = let rest = same_refl bs in ground (arith, rest)

not_forgotten :
    (now expires later : ℕ) → later + second ≤ expires → ltb later (forgotten_at now expires) ≡ true
not_forgotten now expires later before = elim (Bool-cases (ltb (expires - now) second)) [
  | inl short ↦ rw short (ground (arith, short, before))
  | inr long ↦ rw long (ground (arith, long, before))
]

module _ (R : Redis) (parse : Bytes → Option Claims) (prefix : Bytes) (ok : Answers R) where
  is_blacklisted-lookup :
      (now : ℕ) (u : Bytes) (s : R.State)
      → is_empty u ≡ false
      → is_blacklisted R parse prefix now u s
        ≡ is_live now (R.lookup (get_blacklist_key prefix u) s)
  unfolding is_blacklisted get_blacklist_key
  is_blacklisted-lookup now u s given =
      elim (Option-cases (R.exists now (get_blacklist_key prefix u) s)) [
        | inl silent ↦ absurd (ground (arith, silent, ok.tells now (get_blacklist_key prefix u) s))
        | inr (b, told) ↦
            rw (given, is_blacklisted)
              (rw told (R.exists-lookup now (get_blacklist_key prefix u) s b told))
      ]

  pub revoke-lookup :
      (now expires : ℕ) (token j : Bytes) (reason : String) (s : R.State)
      → (o : IsOpen parse token now expires)
      → R.lookup j (revoke R parse prefix now token reason (parse token) s).1 ≡ (
          if same (get_blacklist_key prefix token) j
          then some (
            R.merged (get_blacklist_key prefix token) (token_info now o.claims expires reason) s,
            forgotten_at now expires,
          )
          else R.lookup j s)
  revoke-lookup now expires token j reason s o =
      rw (o.parsed, revoke)
        (rw o.expiry (
          rw (lt→ltb now expires o.later) (
            R.set_until-lookup (get_blacklist_key prefix token) j
              (token_info now o.claims expires reason) (forgotten_at now expires) s
              (ok.sets _ _ _ s))))

  -- The two functions revoke alike.
  pub with_reason_lem :
      (now expires : ℕ) (token : Bytes) (reason : String) (s : R.State)
      → IsOpen parse token now expires
      → (some_reason : String) × (blacklist_token_with_reason R parse prefix now token reason s
          ≡ revoke R parse prefix now token some_reason (parse token) s)
  unfolding blacklist_token_with_reason blacklist_token
  with_reason_lem now expires token reason s o = elim (Bool-cases (str_eq reason "")) [
    | inl plain ↦ ("", rw (plain, blacklist_token_with_reason) (rw (o.given, blacklist_token) refl))
    | inr given ↦ (reason, rw (given, blacklist_token_with_reason) refl)
  ]

  -- Where no call fails: after a token that had not expired was revoked, with a reason or without, any
  -- token of bytes that is not empty is found revoked as it was before, but this one: it is found
  -- revoked until the whole seconds to its expiry, one at least, are over, and not from then on.
  pub is_blacklisted-blacklist_token :
      (now expires later : ℕ) (token u : Bytes) (reason : String) (s : R.State)
      → IsOpen parse token now expires
      → is_empty u ≡ false
      → AreBytes u
      → is_blacklisted R parse prefix later u
          (blacklist_token_with_reason R parse prefix now token reason s).1
        ≡ (if same token u
            then ltb later (forgotten_at now expires)
            else is_blacklisted R parse prefix later u s)
  is_blacklisted-blacklist_token now expires later token u reason s o given bytes =
      let (r, revoked) = with_reason_lem now expires token reason s o in
      let key = get_blacklist_key prefix u in
      ap (λ p. is_blacklisted R parse prefix later u p.1) revoked
      ∙ is_blacklisted-lookup later u (revoke R parse prefix now token r (parse token) s).1 given
      ∙ ap (is_live later) (revoke-lookup now expires token key r s o)
      ∙ by_key (same (get_blacklist_key prefix token) key)
          (same-get_blacklist_key prefix token u o.bytes bytes)
          (R.merged (get_blacklist_key prefix token) (token_info now o.claims expires r) s)
    where
      by_key :
          (b : Bool)
          → b ≡ same token u
          → (info : Fields)
          → is_live later (
              if b
              then some (info, forgotten_at now expires)
              else R.lookup (get_blacklist_key prefix u) s)
            ≡ (if same token u
                then ltb later (forgotten_at now expires)
                else is_blacklisted R parse prefix later u s)
      by_key true e info = rw (sym e) refl
      by_key false e info = rw (sym e) (sym (is_blacklisted-lookup later u s given))

  -- Where no call fails: a token that is revoked before it expires is found revoked at every time that is
  -- a second or more before its expiry.
  pub blacklist_token_until :
      (now expires later : ℕ) (token : Bytes) (reason : String) (s : R.State)
      → IsOpen parse token now expires
      → later + second ≤ expires
      → is_blacklisted R parse prefix later token
          (blacklist_token_with_reason R parse prefix now token reason s).1
        ≡ true
  blacklist_token_until now expires later token reason s o before =
      is_blacklisted-blacklist_token now expires later token token reason s o o.given o.bytes
      ∙ if_true _ _ (same_refl token)
      ∙ not_forgotten now expires later before
