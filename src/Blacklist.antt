-- ===== src/Blacklist.antt =====
-- pkg/jwt/blacklist.go: the tokens that are revoked, on Redis. A key and a token are their bytes. The
-- user IDs and the prefix have none of the characters that a pattern of Redis gives a meaning.
pub mod Keys
pub mod Revoked
pub mod Users
use engine_api_workflow.Common.{
  ◌*◌, ◌-◌, ℕ, ◌+◌, ◌/◌, ◌%◌, ◌==◌, ◌≡◌, ◌&&◌, String, Bool, true, false, List, [], ◌∷◌, ◌++◌,
  Option, none, some, All, ltb, str_eq, is_empty, is_some, pos, if◌then◌else◌,
}
use engine_api_workflow.Models.Value.{second, Fields, Value, text, number, end, field, unix}
use engine_api_workflow.Worker.Retry.{starts_with, codes}

abbrev pub Bytes : Type 0
Bytes = List ℕ

unfoldable pub same : Bytes → Bytes → Bool
same [] [] = true
same [] (c ∷ cs) = false
same (b ∷ bs) [] = false
same (b ∷ bs) (c ∷ cs) = let rest = same bs cs in b == c && rest

-- A hash with the time when it expires.
abbrev pub Entry : Type 0
Entry = Fields × ℕ

abbrev pub is_live : ℕ → Option Entry → Bool
is_live now none = false
is_live now (some (info, expires)) = ltb now expires

-- The server: the pipeline of HMSET and EXPIRE, EXISTS, HGETALL and KEYS, with their documented effects.
-- A call that fails returns false or none.
pub record Redis : Type 1 where
  pub State : Type 0
  pub lookup : Bytes → State → Option Entry
  -- What a hash has after HMSET: the fields that are set, and those that it had besides.
  pub merged : Bytes → Fields → State → Fields
  pub set_until : Bytes → Fields → ℕ → State → Bool × State
  pub exists : ℕ → Bytes → State → Option Bool
  pub get_all : ℕ → Bytes → State → Option Fields
  pub keys : ℕ → (Bytes → Bool) → State → Option (List Bytes)
  pub add_fields : ℕ → List Bytes → Fields → State → Bool × State
  pub set_until-lookup :
      (k j : Bytes) (info : Fields) (expires : ℕ) (s : State)
      → (set_until k info expires s).0 ≡ true
      → lookup j (set_until k info expires s).1
        ≡ (if same k j then some (merged k info s, expires) else lookup j s)
  pub exists-lookup :
      (now : ℕ) (k : Bytes) (s : State) (b : Bool)
      → exists now k s ≡ some b
      → b ≡ is_live now (lookup k s)
  pub keys-lookup :
      (now : ℕ) (p : Bytes → Bool) (s : State) (l : List Bytes)
      → keys now p s ≡ some l
      → All (λ k. (p k ≡ true) × (is_some (lookup k s) ≡ true)) l

pub record Claims : Type 0 where
  pub user_id : String
  pub email : String
  pub role : String
  pub kind : String
  pub expires_at : Option ℕ

pub data BlacklistError : Type 0 where
  empty_token not_parsed no_expiration redis_failed empty_user not_in_blacklist : BlacklistError

abbrev pub hex_digit : ℕ → ℕ
hex_digit d = if ltb d 10 then 48 + d else 87 + d

unfoldable pub hex : Bytes → Bytes
hex [] = []
hex (b ∷ bs) = hex_digit (b / 16) ∷ hex_digit (b % 16) ∷ hex bs

unfoldable pub get_blacklist_key : Bytes → Bytes → Bytes
get_blacklist_key prefix token = prefix ++ hex token

abbrev pub reason_field : String → Fields → Fields
reason_field reason rest = if str_eq reason "" then rest else field "reason" (text reason) rest

abbrev pub token_info : ℕ → Claims → ℕ → String → Fields
token_info now c expires reason = field "user_id" (text c.user_id) (
    field "email" (text c.email) (
      field "type" (text c.kind) (
        reason_field reason (
          field "revoked_at" (number (pos (unix now)))
            (field "expires_at" (number (pos (unix expires))) end)))))

-- How the driver writes a duration for EXPIRE: in whole seconds, and one at least.
abbrev pub whole_seconds : ℕ → ℕ
whole_seconds ttl = if ltb ttl second then 1 else ttl / second

abbrev pub forgotten_at : ℕ → ℕ → ℕ
forgotten_at now expires = now + whole_seconds (expires - now) * second

abbrev pub user_pattern : Bytes → String → Bytes
user_pattern prefix user_id = prefix ++ (codes "user:" ++ (codes user_id ++ codes ":"))

-- `parse` is ParseUnverified of the package jwt.
module _ (R : Redis) (parse : Bytes → Option Claims) (prefix : Bytes) where
  abbrev pub stored : Bool × R.State → Option BlacklistError × R.State
  stored (b, s) = (if b then none else some redis_failed, s)

  -- What the two functions share, once the token is parsed.
  abbrev pub revoke : ℕ → Bytes → String → Option Claims → R.State → Option BlacklistError × R.State
  revoke now token reason none s = (some not_parsed, s)
  revoke now token reason (some c) s = elim c.expires_at [
    | none ↦ (some no_expiration, s)
    | some expires ↦
        if ltb now expires
        then stored (
            R.set_until (get_blacklist_key prefix token) (token_info now c expires reason)
              (forgotten_at now expires) s)
        else (none, s)
  ]

  unfoldable pub blacklist_token : ℕ → Bytes → R.State → Option BlacklistError × R.State
  blacklist_token now token s =
      if is_empty token then (some empty_token, s) else revoke now token "" (parse token) s

  unfoldable pub blacklist_token_with_reason :
      ℕ → Bytes → String → R.State → Option BlacklistError × R.State
  blacklist_token_with_reason now token reason s =
      if str_eq reason ""
      then blacklist_token now token s
      else revoke now token reason (parse token) s

  unfoldable pub is_blacklisted : ℕ → Bytes → R.State → Bool
  is_blacklisted now token s =
      if is_empty token
      then false
      else (elim (R.exists now (get_blacklist_key prefix token) s) [ none ↦ false | some b ↦ b ])

  abbrev pub found_info : Option Fields → Option Fields × Option BlacklistError
  found_info none = (none, some redis_failed)
  found_info (some end) = (none, some not_in_blacklist)
  found_info (some (field k v rest)) = (some (field k v rest), none)

  unfoldable pub get_blacklist_info : ℕ → Bytes → R.State → Option Fields × Option BlacklistError
  get_blacklist_info now token s =
      if is_empty token
      then (none, some empty_token)
      else found_info (R.get_all now (get_blacklist_key prefix token) s)

  abbrev pub revoke_keys :
      ℕ → String → Option (List Bytes) → R.State → Option BlacklistError × R.State
  revoke_keys now reason none s = (some redis_failed, s)
  revoke_keys now reason (some []) s = (none, s)
  revoke_keys now reason (some (k ∷ ks)) s = stored (
      R.add_fields now (k ∷ ks)
        (field "revoked_at" (number (pos (unix now))) (field "reason" (text reason) end)) s)

  unfoldable pub blacklist_all_user_tokens :
      ℕ → String → String → R.State → Option BlacklistError × R.State
  blacklist_all_user_tokens now user_id reason s =
      if str_eq user_id ""
      then (some empty_user, s)
      else revoke_keys now reason (R.keys now (starts_with (user_pattern prefix user_id)) s) s
