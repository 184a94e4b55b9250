-- ===== src/Models/Notification/Pattern.antt =====
-- What internal/models/notification.go asks of texts: the form of an address, blanks and lengths.
use Prim.Native.Char.{code}
use engine_api_workflow.Common.{
  ℕ, zero, suc, ◌+◌, ◌-◌, String, Bool, true, false, ◌&&◌, ◌||◌, ltb, leb, ◌==◌, if◌then◌else◌,
}

-- emailRegex: ^[a-zA-Z0-9._%+-]+@[a-zA-Z0-9.-]+\.[a-zA-Z]{2,}$, by its parts.
abbrev pub in_range : ℕ → ℕ → ℕ → Bool
in_range low high n = leb low n && leb n high

abbrev pub is_letter : ℕ → Bool
is_letter n = in_range b'a' b'z' n || in_range b'A' b'Z' n

abbrev pub is_domain_code : ℕ → Bool
is_domain_code n = is_letter n || in_range b'0' b'9' n || n == b'.' || n == b'-'

abbrev pub is_local_code : ℕ → Bool
is_local_code n = is_domain_code n || n == b'_' || n == b'%' || n == b'+'

-- `k` letters at least are still to come.
unfoldable pub matches_letters : ℕ → String → Bool
matches_letters zero String.[] = true
matches_letters (suc k) String.[] = false
matches_letters k (String.◌∷◌ c s) = is_letter (code c) && matches_letters (k - 1) s

unfoldable pub matches_domain : Bool → String → Bool
unfolding matches_letters
matches_domain some_before String.[] = false
matches_domain some_before (String.◌∷◌ c s) =
    (some_before && code c == b'.' && matches_letters 2 s)
    || (is_domain_code (code c) && matches_domain true s)

unfoldable pub matches_local : Bool → String → Bool
unfolding matches_domain
matches_local some_before String.[] = false
matches_local some_before (String.◌∷◌ c s) =
    (some_before && code c == b'@' && matches_domain false s)
    || (is_local_code (code c) && matches_local true s)

abbrev pub matches_email : String → Bool
matches_email s = matches_local false s

-- `len` of a Go string: its bytes in UTF-8.
abbrev pub utf8_width : ℕ → ℕ
utf8_width n = if ltb n 128 then 1 else if ltb n 2048 then 2 else if ltb n 65536 then 3 else 4

unfoldable pub byte_length : String → ℕ
byte_length String.[] = 0
byte_length (String.◌∷◌ c s) = utf8_width (code c) + byte_length s

-- `unicode.IsSpace`
abbrev pub is_space : ℕ → Bool
is_space n =
    in_range 9 13 n
    || n == 32
    || n == 133
    || n == 160
    || n == 5760
    || in_range 8192 8202 n
    || in_range 8232 8233 n
    || n == 8239
    || n == 8287
    || n == 12288

-- `strings.TrimSpace(s) == ""`
unfoldable pub is_blank : String → Bool
is_blank String.[] = true
is_blank (String.◌∷◌ c s) = is_space (code c) && is_blank s
