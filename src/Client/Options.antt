-- ===== src/Client/Options.antt =====
-- src/client.rs: the checks of the connector's options, and the environment values that it sends.
-- URLs, address lookups and the connector's own environment are arguments.
pub mod Checked
use acp_tunnel.Common.{
  ℕ, String, ◌≡◌, Bool, true, false, ◌||◌, ◌&&◌, Option, none, some, List, [], ◌∷◌, ◌++◌, contains,
  contains_char, equals_ignore_case, format, quoted, str_eq, if◌then◌else◌, ◌==◌, ltb, all, is_some,
}
use acp_tunnel.Fault.{Error, Result, ok, err, ◌>>=◌, ◌>>◌, fail_if}
use acp_tunnel.Config.Names.{validate_id, validate_environment_name}
use acp_tunnel.Protocol.{ClientEnvironmentVariable, ClientEnvironment}
use acp_tunnel.Client.Socket.{ConnectOptions}

-- The host of a URL: an address, with whether it is a loopback address, or a name.
pub data Host : Type 0 where
  address : Bool → Host
  domain : String → Host

pub record Url : Type 0 where
  pub scheme : String
  pub host : Option Host

-- The addresses that a name stands for, by whether each is a loopback address.
abbrev pub Lookup : Type 0
Lookup = String → Result (List Bool)

abbrev pub all_loopback : List Bool → Bool
all_loopback [] = false
all_loopback (b ∷ bs) = all (λ c. c) (b ∷ bs)

unfoldable pub host_is_loopback : Lookup → Option Host → Result Bool
host_is_loopback lookup none = err (Error.config "WebSocket URL has no host")
host_is_loopback lookup (some (address loopback)) = ok loopback
host_is_loopback lookup (some (domain name)) =
    if equals_ignore_case name "localhost"
    then ok true
    else (lookup name >>= λ addresses. ok (all_loopback addresses))

abbrev pub plain_allowed : Bool → Result (Unit {0})
plain_allowed true = ok tt
plain_allowed false =
    err (Error.config "ws:// is allowed only for loopback destinations; use wss://")

unfoldable pub validate_connect_url : Lookup → Url → Result (Unit {0})
unfolding host_is_loopback
validate_connect_url lookup url =
    if str_eq url.scheme "wss"
    then ok tt
    else if str_eq url.scheme "ws"
    then (host_is_loopback lookup url.host >>= plain_allowed)
    else err (
        Error.config (
          format (
            "unsupported URL scheme "
            ∷ quoted url.scheme
            ∷ "; expected wss:// or loopback ws://"
            ∷ [])))

abbrev pub selected_twice : String → Error
selected_twice name =
    Error.config
      (format ("client environment variable " ∷ quoted name ∷ " was selected more than once" ∷ []))

unfoldable pub validate_client_environment : List String → ClientEnvironment → Result (Unit {0})
validate_client_environment seen [] = ok tt
validate_client_environment seen (v ∷ vs) =
    validate_environment_name "connector" "client environment" v.name
    >> (fail_if (contains v.name seen) (selected_twice v.name)
        >> (fail_if (contains_char 0 v.value)
              (Error.config "client environment contains an invalid variable value")
            >> validate_client_environment (v.name ∷ seen) vs))

-- `std::env::var`: a value, or an error for one that is not set or not a text.
unfoldable pub select_client_environment :
    (String → Result String) → List String → List String → Result ClientEnvironment
select_client_environment variable seen [] = ok []
select_client_environment variable seen (name ∷ names) =
    validate_environment_name "connector" "client environment" name
    >> (fail_if (contains name seen) (selected_twice name)
        >> (variable name >>= λ value.
            select_client_environment variable (name ∷ seen) names >>= λ rest.
            ok (record { name = name; value = value } ∷ rest)))

unfoldable pub validate_options : Lookup → Url → ConnectOptions → Result (Unit {0})
unfolding validate_connect_url validate_client_environment
validate_options lookup url options = do
  validate_id "agent" options.agent
  validate_id "workspace" options.workspace
  validate_connect_url lookup url
  validate_client_environment [] options.client_environment
  fail_if
      (options.max_frame_bytes == 0
        || options.max_replay_frames == 0
        || ltb options.max_replay_bytes options.max_frame_bytes
        || options.connection_timeout == 0
        || options.keepalive_timeout == 0
        || options.reconnect_timeout == 0
        || options.shutdown_timeout == 0)
      (Error.config "client frame, replay, and timeout settings are invalid")
