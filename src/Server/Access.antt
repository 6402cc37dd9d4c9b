-- ===== src/Server/Access.antt =====
-- src/server.rs and src/auth.rs: who may upgrade to a WebSocket. The headers of a request are given
-- as texts, or as bytes that are no text.
pub mod Guarded
use acp_tunnel.Common.{
  ℕ, String, ◌≡◌, Bool, true, false, ◌&&◌, ◌||◌, not, Option, none, some, List, [], ◌∷◌, contains,
  is_blank, if◌then◌else◌, ◌==◌, ltb, leb, any_char, split_once_space, equals_ignore_case,
}
use acp_tunnel.Auth.{authenticate}
use acp_tunnel.Config.{ServerConfig}

-- `char::is_whitespace`, by code point.
unfoldable pub is_whitespace : ℕ → Bool
is_whitespace c =
    leb 9 c && leb c 13
    || c == 32
    || c == 133
    || c == 160
    || c == 5760
    || leb 8192 c && leb c 8202
    || c == 8232
    || c == 8233
    || c == 8239
    || c == 8287
    || c == 12288

unfoldable pub parse_bearer : String → Option String
unfolding is_whitespace
parse_bearer header = elim (split_once_space header) [
  | none ↦ none
  | some (scheme, credential) ↦
      if equals_ignore_case scheme "bearer"
        && not (is_blank credential)
        && not (any_char is_whitespace credential)
      then some credential
      else none
]

-- A header that is absent, or not a text, or a text.
pub data Header : Type 0 where
  absent opaque : Header
  text : String → Header

unfoldable pub authorized : (String → List ℕ) → String → Header → Bool
unfolding parse_bearer
authorized as_bytes expected absent = false
authorized as_bytes expected opaque = false
authorized as_bytes expected (text header) = elim (parse_bearer header) [
  | none ↦ false
  | some token ↦ authenticate (as_bytes expected) (as_bytes token)
]

unfoldable pub origin_allowed : ServerConfig → Header → Bool
origin_allowed config absent = true
origin_allowed config opaque = false
origin_allowed config (text origin) = contains origin config.allowed_origins

-- `enforce_upgrade_security`: the status of a refusal, or the request goes on.
unfoldable pub enforce_upgrade_security :
    (String → List ℕ) → String → ServerConfig → Header → Header → Option ℕ
unfolding authorized origin_allowed
enforce_upgrade_security as_bytes expected config authorization origin =
    if not (authorized as_bytes expected authorization)
    then some 401
    else if not (origin_allowed config origin)
    then some 403
    else none
