-- ===== src/Setup/Service.antt =====
-- src/setup.rs: the unit that a service manager starts the server by. A path is the text that it
-- shows as, where it is valid Unicode; resolving the executable is an argument.
pub mod Quoted
use Prim.Native.Char.{code}
use Prim.Native.String.{[], ◌∷◌, ◌++◌}
use acp_tunnel.Common.{
  ℕ, String, ◌||◌, Option, none, some, ◌==◌, if◌then◌else◌, contains_char, format,
}
use acp_tunnel.Common as Shared
use acp_tunnel.Fault.{Error, config, Result, ok, err, ◌>>=◌}
use acp_tunnel.Files.{Answer, or_config}

-- `replace` of a character, by its code point.
unfoldable pub replace_char : ℕ → String → String → String
replace_char n by [] = []
replace_char n by (c ∷ s) =
    if code c == n then by ++ replace_char n by s else c ∷ replace_char n by s

abbrev pub escaped : String → String
escaped text = replace_char b'%' "%%" (replace_char b'"' "\\\"" (replace_char b'\\' "\\\\" text))

unfoldable pub escape_systemd_argument : Option String → Result String
escape_systemd_argument none =
    err (config "the service executable path must contain valid Unicode text")
escape_systemd_argument (some text) =
    if contains_char b'\n' text || contains_char b'\r' text || contains_char 0 text
    then err (config "the service executable path contains invalid characters")
    else ok ("\"" ++ (escaped text ++ "\""))

abbrev pub unit_head : String
unit_head =
    "[Unit]\nDescription=ACP Tunnel Server\nAfter=network-online.target\nWants=network-online.target\n\n[Service]\nType=simple\nExecStart="

abbrev pub unit_tail : String
unit_tail =
    " serve\nRestart=on-failure\nRestartSec=2\nKillSignal=SIGTERM\nTimeoutStopSec=30\nKillMode=control-group\nNoNewPrivileges=true\nPrivateTmp=true\n\n[Install]\nWantedBy=default.target\n"

unfoldable pub generate_user_service :
    {FilePath : Type 0}
    → (FilePath → Option String)
    → (FilePath → Answer FilePath)
    → (FilePath → String)
    → FilePath
    → Result String
unfolding escape_systemd_argument
generate_user_service to_str canonicalize display executable =
    or_config (canonicalize executable) (λ error. format (
      Shared.◌∷◌ "cannot resolve service executable "
        (Shared.◌∷◌ (display executable) (Shared.◌∷◌ ": " (Shared.◌∷◌ error Shared.[])))))
    >>= λ canonical. escape_systemd_argument (to_str canonical) >>= λ argument.
        ok (unit_head ++ (argument ++ unit_tail))
