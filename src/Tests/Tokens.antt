-- ===== src/Tests/Tokens.antt =====
-- The revoked tokens on a server in memory.
use engine_api_workflow.Common.{
  subst, sym, ℕ, ◌≡◌, refl, ◌&&◌, Bool, true, false, List, [], ◌∷◌, Option, none, some, All, arith,
  is_some, ltb, Bool-cases, inl, inr, if◌then◌else◌,
}
use engine_api_workflow.Models.Value.{field, Fields, end}
use engine_api_workflow.Worker.Executor.{set_var}
use engine_api_workflow.Blacklist.{
  Entry, Bytes, Redis, Entry, Claims, same, is_live, forgotten_at, is_blacklisted,
  blacklist_token_with_reason, blacklist_all_user_tokens, hex,
}
use engine_api_workflow.Blacklist.Revoked.{Answers, IsOpen, is_blacklisted-blacklist_token}
use engine_api_workflow.Tests.Mail.{some-inj}
use engine_api_workflow.Blacklist.Users.{Revocation, revoke_each, blacklist_all_user_tokens-idle}

abbrev Store : Type 0
Store = List (Bytes × Entry)

unfoldable found_at : Bytes → Store → Option Entry
found_at k [] = none
found_at k ((j, e) ∷ s) = let rest = found_at k s in if same j k then some e else rest

found_at-cons :
    (k j : Bytes) (e : Entry) (s : Store)
    → found_at j ((k, e) ∷ s) ≡ (if same k j then some e else found_at j s)
unfolding found_at
found_at-cons k j e s = refl

abbrev fields_of : Option Entry → Fields
fields_of none = end
fields_of (some (info, expires)) = info

-- The new fields over the old ones.
abbrev merge_into : Fields → Fields → Fields
merge_into end old = old
merge_into (field k v new) old = set_var k v (merge_into new old)

abbrev info_of : ℕ → Option Entry → Fields
info_of now none = end
info_of now (some (info, expires)) = if ltb now expires then info else end

abbrev passing : ℕ → (Bytes → Bool) → Store → Store → List Bytes
passing now p whole [] = []
passing now p whole ((k, e) ∷ s) =
    let rest = passing now p whole s in
    if p k && is_live now (found_at k whole) then k ∷ rest else rest

live-some : (now : ℕ) (o : Option Entry) → is_live now o ≡ true → is_some o ≡ true
live-some now none h = absurd (ground (arith, h))
live-some now (some e) h = refl

passing-All :
    (now : ℕ) (p : Bytes → Bool) (whole s : Store)
    → All (λ k. (p k ≡ true) × (is_some (found_at k whole) ≡ true)) (passing now p whole s)
passing-All now p whole [] = tt
passing-All now p whole ((k, e) ∷ s) =
    let rest = passing-All now p whole s in
    elim (Bool-cases (p k && is_live now (found_at k whole))) [
      | inl here ↦
          rw here
            ((ground (arith, here), live-some now (found_at k whole) (ground (arith, here))), rest)
      | inr not_here ↦ rw not_here rest
    ]

abbrev tokens_memory : Redis
tokens_memory = record {
  State = Store;
  lookup = found_at;
  merged = λ k info s. merge_into info (fields_of (found_at k s));
  set_until =
      λ k info expires s. (true, (k, (merge_into info (fields_of (found_at k s)), expires)) ∷ s);
  exists = λ now k s. some (is_live now (found_at k s));
  get_all = λ now k s. some (info_of now (found_at k s));
  keys = λ now p s. some (passing now p s s);
  add_fields = λ now l info s. (true, s);
  set_until-lookup = λ k j info expires s h.
      found_at-cons k j (merge_into info (fields_of (found_at k s)), expires) s;
  exists-lookup = λ now k s b h. some-inj b (is_live now (found_at k s)) (sym h);
  keys-lookup = λ now p s l h.
      subst (All (λ k. (p k ≡ true) × (is_some (found_at k s) ≡ true)))
        (some-inj (passing now p s s) l h) (passing-All now p s s);
}

abbrev some_claims : Claims
some_claims = record {
  user_id = "u1";
  email = "ana@mail.org";
  role = "user";
  kind = "access";
  expires_at = some 9000000000;
}

abbrev parse_any : Bytes → Option Claims
parse_any token = some some_claims

abbrev token_a : Bytes
token_a = 97 ∷ 46 ∷ 98 ∷ []

abbrev token_b : Bytes
token_b = 97 ∷ 46 ∷ 99 ∷ []

memory-Answers : Answers tokens_memory
memory-Answers = record { sets = λ k info expires s. refl; tells = λ now k s. refl }

a-IsOpen : IsOpen parse_any token_a 2500000000 9000000000
a-IsOpen = record {
  claims = some_claims;
  parsed = refl;
  expiry = refl;
  later = omega arith;
  given = refl;
  bytes = (omega arith, (omega arith, (omega arith, tt)));
}

is_blacklisted-blacklist_token_example :
    is_blacklisted tokens_memory parse_any
      (106 ∷ [])
      3000000000
      token_b
      (blacklist_token_with_reason tokens_memory parse_any
        (106 ∷ [])
        2500000000
        token_a
        "logout"
        []).1
    ≡ (if same token_a token_b
        then ltb 3000000000 (forgotten_at 2500000000 9000000000)
        else is_blacklisted tokens_memory parse_any (106 ∷ []) 3000000000 token_b [])
is_blacklisted-blacklist_token_example =
    is_blacklisted-blacklist_token tokens_memory parse_any (106 ∷ []) memory-Answers 2500000000
      9000000000 3000000000 token_a token_b "logout" [] a-IsOpen refl
      (omega arith, (omega arith, (omega arith, tt)))

-- In the last half second before the expiry it is not found any more.
forgotten_early :
    is_blacklisted tokens_memory parse_any
      (106 ∷ [])
      8600000000
      token_a
      (blacklist_token_with_reason tokens_memory parse_any
        (106 ∷ [])
        2500000000
        token_a
        "logout"
        []).1
    ≡ false
unfolding is_blacklisted blacklist_token_with_reason found_at hex same
    engine_api_workflow.Blacklist.get_blacklist_key
forgotten_early = refl

abbrev revocations : List Revocation
revocations =
    record { now = 2500000000; expires = 9000000000; token = token_a; reason = "logout" } ∷ []

blacklist_all_user_tokens-idle_example :
    (blacklist_all_user_tokens tokens_memory parse_any
      (106 ∷ [])
      3000000000
      "u1"
      "stolen"
      (revoke_each tokens_memory parse_any (106 ∷ []) revocations [])).1
    ≡ revoke_each tokens_memory parse_any (106 ∷ []) revocations []
unfolding found_at
blacklist_all_user_tokens-idle_example =
    blacklist_all_user_tokens-idle tokens_memory parse_any (106 ∷ []) memory-Answers revocations
      3000000000 "u1" "stolen" [] (a-IsOpen, tt) (λ k there. absurd (ground (arith, there)))
