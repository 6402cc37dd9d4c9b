-- ===== src/Config/Names.antt =====
-- src/config.rs: identifiers and the names of environment variables.
use Prim.Native.Char.{Char, code}
use acp_tunnel.Common.{
  String, ◌≡◌, ◌↔◌, Bool, true, false, ◌||◌, ◌&&◌, not, leb, ◌==◌, if◌then◌else◌, arith, [], ◌∷◌,
  format, quoted, contains_char, is_blank,
}
use acp_tunnel.Fault.{Error, Result, ok, err}

-- [a-z0-9]
unfoldable pub is_lower_or_digit : Char → Bool
is_lower_or_digit c =
    leb b'a' (code c) && leb (code c) b'z' || leb b'0' (code c) && leb (code c) b'9'

-- [a-z0-9_-]*
unfoldable pub is_id_rest : String → Bool
unfolding is_lower_or_digit
is_id_rest String.[] = true
is_id_rest (String.◌∷◌ c s) =
    (is_lower_or_digit c || code c == b'_' || code c == b'-') && is_id_rest s

-- The pattern ^[a-z0-9][a-z0-9_-]*$, read by hand.
unfoldable pub is_id : String → Bool
unfolding is_id_rest
is_id String.[] = false
is_id (String.◌∷◌ c s) = is_lower_or_digit c && is_id_rest s

abbrev pub invalid_id : String → String → Error
invalid_id kind id = Error.config (
    format ("invalid " ∷ kind ∷ " identifier " ∷ quoted id ∷ "; expected [a-z0-9][a-z0-9_-]*" ∷ []))

unfoldable pub validate_id : String → String → Result (Unit {0})
unfolding is_id
validate_id kind id = if is_id id then ok tt else err (invalid_id kind id)

abbrev pub invalid_environment_name : String → String → Error
invalid_environment_name kind id =
    Error.config (format (kind ∷ " " ∷ quoted id ∷ " has invalid environment variable name" ∷ []))

-- A name that the environment can hold: not empty, no `=`, no NUL.
unfoldable pub is_environment_name : String → Bool
is_environment_name name = not (is_blank name || contains_char b'=' name || contains_char 0 name)

unfoldable pub validate_environment_name : String → String → String → Result (Unit {0})
unfolding is_environment_name
validate_environment_name kind id name =
    if is_blank name || contains_char b'=' name || contains_char 0 name
    then err (invalid_environment_name kind id)
    else ok tt

-- The check passes exactly for the names that the environment can hold, whoever asks.
pub validate_environment_name_iff :
    (kind id name : String)
    → (validate_environment_name kind id name ≡ ok tt) ↔ (is_environment_name name ≡ true)
unfolding validate_environment_name is_environment_name
validate_environment_name_iff kind id name = ground arith
