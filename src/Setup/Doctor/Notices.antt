-- ===== src/Setup/Doctor/Notices.antt =====
-- src/setup.rs: the notices of the doctor that ask nothing more of the operating system.
use acp_tunnel.Common.{
  ℕ, String, ◌++◌, Bool, true, false, ◌||◌, Option, none, some, List, [], ◌∷◌, Dict, contains,
  contains_key, length, ◌==◌, bit_and, format, quoted, if◌then◌else◌,
}
use acp_tunnel.Fault.{Result, ok, err, to_string}
use acp_tunnel.Files.{Answer, answered, failed}
use acp_tunnel.Config.{AgentConfig, is_passthrough}
use acp_tunnel.Setup.Executable.{Metadata}

pub data DoctorLevel : Type 0 where
  fine warning error : DoctorLevel

pub record DoctorNotice : Type 0 where
  pub level : DoctorLevel
  pub message : String

abbrev pub DoctorReport : Type 0
DoctorReport = List DoctorNotice

abbrev pub is_error : DoctorNotice → Bool
is_error notice = elim notice.level [ error ↦ true | _ ↦ false ]

unfoldable pub has_errors : DoctorReport → Bool
has_errors [] = false
has_errors (notice ∷ report) = is_error notice || has_errors report

abbrev pub notice : DoctorLevel → String → DoctorReport
notice level message = record { level = level; message = message } ∷ []

abbrev pub buzz_client_environment : List String
buzz_client_environment = "BUZZ_RELAY_URL" ∷ "BUZZ_PRIVATE_KEY" ∷ "BUZZ_AUTH_TAG" ∷ []

-- What binding the listener's address comes to.
pub data Binding : Type 0 where
  bound : Binding
  in_use : Binding
  unbound : String → Binding

-- What a WebSocket handshake without a credential comes to.
pub data Handshake : Type 0 where
  http : ℕ → Handshake
  broken : String → Handshake
  upgraded : Handshake

-- A public URL: the check of it, the addresses that it stands for, and whether one takes a
-- connection.
pub record PublicUrl : Type 1 where
  pub Address : Type 0
  pub check : Result (Unit {0})
  pub socket_addrs : Answer (List Address)
  pub connects : Address → Bool
  pub handshake : Handshake

abbrev pub any {ℓ} : {A : Type ℓ} → (A → Bool) → List A → Bool
any p [] = false
any p (x ∷ xs) = p x || any p xs

unfoldable pub diagnose_public_url : PublicUrl → DoctorReport
diagnose_public_url url = elim url.check [
  | err e ↦ notice error (to_string e)
  | ok _ ↦ elim url.socket_addrs [
    | failed e ↦ notice error (format ("cannot resolve the public URL: " ∷ e ∷ []))
    | answered [] ↦ notice error "the public URL resolved no addresses"
    | answered (a ∷ addresses) ↦
        if any url.connects (a ∷ addresses)
        then notice fine "the public URL resolves and accepts a TCP connection"
          ++ notice warning "the doctor did not open an authenticated WebSocket or start an agent"
        else notice error "the public URL did not accept a TCP connection"
  ]
]

unfoldable pub diagnose_handshake : (ℕ → String) → Handshake → DoctorReport
diagnose_handshake status_text (http status) =
    if status == 401
    then notice fine "the public WebSocket route rejected an unauthenticated request"
    else notice error
        (format ("the public WebSocket route returned HTTP " ∷ status_text status ∷ []))
diagnose_handshake status_text (broken e) =
    notice error (format ("the public WebSocket handshake failed: " ∷ e ∷ []))
diagnose_handshake status_text upgraded =
    notice error "the public WebSocket route accepted an unauthenticated request"

unfoldable pub diagnose_websocket_endpoint : (ℕ → String) → PublicUrl → DoctorReport
unfolding diagnose_handshake
diagnose_websocket_endpoint status_text url = elim url.check [
  | err e ↦ notice error (to_string e)
  | ok _ ↦ diagnose_handshake status_text url.handshake
]

abbrev pub unwritable : String → Metadata → DoctorReport
unwritable id metadata =
    -- 0o222
    if bit_and metadata.mode 146 == 0
    then notice warning (format ("workspace " ∷ quoted id ∷ " has no filesystem write bits" ∷ []))
    else []

unfoldable pub unset_variables : String → Dict String → List String → DoctorReport
unset_variables id environment [] = []
unset_variables id environment (name ∷ names) =
    (if contains_key name environment
      then []
      else notice warning
          (format ("agent " ∷ quoted id ∷ " cannot inherit unset variable " ∷ quoted name ∷ [])))
    ++ unset_variables id environment names

abbrev pub open_to_commands : String → AgentConfig → DoctorReport
open_to_commands id agent =
    if is_passthrough agent.mcp_policy
    then notice warning (
        format (
          "agent " ∷ quoted id ∷ " accepts client-provided MCP commands for remote execution" ∷ []))
    else []

unfoldable pub listed_names : List String → List String → ℕ
listed_names allowlist [] = 0
listed_names allowlist (name ∷ names) =
    let rest = listed_names allowlist names in if contains name allowlist then ℕ.suc rest else rest

unfoldable pub diagnose_preset : String → AgentConfig → DoctorReport
unfolding listed_names
diagnose_preset id agent =
    let buzz_names = listed_names agent.client_env_allowlist buzz_client_environment in
    if buzz_names == length buzz_client_environment
    then notice fine
        (format ("agent " ∷ quoted id ∷ " accepts the complete Buzz environment preset" ∷ []))
    else if buzz_names == 0
    then []
    else notice warning
        (format ("agent " ∷ quoted id ∷ " has an incomplete Buzz environment preset" ∷ []))

abbrev pub each {ℓ} : {V : Type ℓ} → (String → V → DoctorReport) → Dict V → DoctorReport
each f [] = []
each f ((id, v) ∷ m) = f id v ++ each f m

unfoldable pub diagnose_listener : String → Binding → DoctorReport
diagnose_listener listen bound = notice fine (format ("listener " ∷ listen ∷ " is available" ∷ []))
diagnose_listener listen in_use =
    notice warning (
      format
        ("listener " ∷ listen ∷ " is in use; an acp-tunnel server can already be running" ∷ []))
diagnose_listener listen (unbound e) =
    notice error (format ("cannot bind listener " ∷ listen ∷ ": " ∷ e ∷ []))

unfoldable pub diagnose_credential : Result String → DoctorReport
diagnose_credential (ok _) = notice fine "the bearer credential is valid"
diagnose_credential (err e) = notice error (to_string e)

unfoldable pub diagnose_url : Option PublicUrl → DoctorReport
unfolding diagnose_public_url
diagnose_url none = []
diagnose_url (some url) = diagnose_public_url url

abbrev pub endpoint : (ℕ → String) → Option PublicUrl → DoctorReport
endpoint status_text none = []
endpoint status_text (some url) = diagnose_websocket_endpoint status_text url
