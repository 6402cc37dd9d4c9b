-- ===== src/Tests/Setups.antt =====
-- Examples of the theorems about files, the unit of the service manager and the doctor.
use acp_tunnel.Common.{
  ℕ, String, ◌≡◌, ◌≢◌, refl, ◌↔◌, Option, none, some, [], ◌∷◌, get, arith, eq_iff, str_eq, ◌==◌,
  if◌then◌else◌, true, false, contains_char,
}
use Prim.Native.String.{◌++◌}
use acp_tunnel.Fault.{ok}
use acp_tunnel.Files.{call, file, directory, World, PathLib, Answer, answered}
use acp_tunnel.Config.{ServerConfig, deny}
use acp_tunnel.Setup.Private.{sibling_path, replace_private_file}
use acp_tunnel.Setup.Private.Replaced.{Replaced, replace_private_file-Replaced}
use acp_tunnel.Setup.Service.{
  replace_char, escape_systemd_argument, generate_user_service, unit_head, unit_tail,
}
use acp_tunnel.Setup.Service.Quoted.{read_argument, generate_user_service-reads}
use acp_tunnel.Setup.Executable.{Probe, regular, dir}
use acp_tunnel.Setup.Doctor.Notices.{bound, PublicUrl, http}
use acp_tunnel.Setup.Doctor.{run_doctor}
use acp_tunnel.Setup.Doctor.Healthy.{Healthy, run_doctor-Healthy}
use acp_tunnel.Tests.{sample_config}

abbrev pub sample_paths : PathLib
sample_paths = record {
  parent = λ _. some "d";
  file_name = λ _. some "c";
  join = λ directory name. name;
  ancestors = λ path. path ∷ [];
}

-- The directory and the configuration, of which the second call about it is refused.
abbrev sample_world : World
sample_world = record {
  entries = ("d", directory 448) ∷ ("c", file 420 (1 ∷ 2 ∷ [])) ∷ [];
  calls = 0;
}

abbrev sample_fault : ℕ → Option String
sample_fault call = if call == 8 then some "busy" else none

abbrev pub whole : ℕ → ℕ
whole call = call

new_path : sibling_path sample_paths sample_fault whole "c" "new" "1" ≡ ok ".c.new-1"
unfolding sibling_path
new_path = refl

old_path : sibling_path sample_paths sample_fault whole "c" "old" "2" ≡ ok ".c.old-2"
unfolding sibling_path
old_path = refl

apart : (a b : String) → str_eq a b ≡ false → a ≢ b
apart a b f e = ground (arith, eq_iff a b, f, e)

replace_private_file-Replaced_example :
    Replaced "c" ".c.old-2"
      (1 ∷ 2 ∷ [])
      (3 ∷ [])
      (replace_private_file sample_paths sample_fault whole "1" "2" "c"
        (3 ∷ [])
        sample_world).1.entries
      (replace_private_file sample_paths sample_fault whole "1" "2" "c" (3 ∷ []) sample_world).0
unfolding get
replace_private_file-Replaced_example =
    replace_private_file-Replaced sample_paths sample_fault whole "1" "2" "c" ".c.new-1" ".c.old-2"
      420 (1 ∷ 2 ∷ []) (3 ∷ []) sample_world new_path old_path (apart "c" ".c.new-1" refl)
      (apart "c" ".c.old-2" refl) (apart ".c.new-1" ".c.old-2" refl) refl

abbrev sample_resolve : String → Answer String
sample_resolve path = answered ("/opt/" ++ path)

generates :
    generate_user_service some sample_resolve (λ path. path) "a%b"
    ≡ ok (unit_head ++ ("\"/opt/a%%b\"" ++ unit_tail))
unfolding generate_user_service escape_systemd_argument replace_char contains_char
generates = refl

abbrev pub sample_probe : Probe
sample_probe = record {
  metadata = λ path. elim (str_eq path "/w") [
    | true ↦ answered (record { kind = dir; mode = 493 })
    | false ↦ answered (record { kind = regular; mode = 493 })
  ];
  canonicalize = answered;
  is_absolute = λ _. true;
  components = λ _. 2;
  split_paths = λ _. [];
  join = λ directory name. name;
}

generate_user_service-reads_example :
    (canonical argument text : String) × (sample_resolve "a%b" ≡ answered canonical)
    × (some canonical ≡ some text)
    × (unit_head ++ ("\"/opt/a%%b\"" ++ unit_tail) ≡ unit_head ++ (argument ++ unit_tail))
    × (read_argument argument ≡ some text)
generate_user_service-reads_example =
    generate_user_service-reads some sample_resolve (λ path. path) "a%b"
      (unit_head ++ ("\"/opt/a%%b\"" ++ unit_tail)) generates

-- One workspace, and one agent with its own environment.
abbrev doctored : ServerConfig
doctored = record sample_config {
  workspaces = ("w", record { path = "/w" }) ∷ [];
  agents =
      (
        "a",
        record {
          command = "/bin/agent";
          args = [];
          workspaces = "w" ∷ [];
          pass_env = "HOME" ∷ [];
          env = [];
          client_env_allowlist = [];
          mcp_policy = deny;
        },
      )
      ∷ [];
}

abbrev sample_url : PublicUrl
sample_url = record {
  Address = ℕ;
  check = ok tt;
  socket_addrs = answered (1 ∷ 2 ∷ []);
  connects = λ a. a == 2;
  handshake = http 401;
}

run_doctor-Healthy_example :
    (run_doctor sample_probe
        (λ _. none)
        (λ _. answered tt)
        (λ _. "401")
        (ok "/c")
        (λ _. ok doctored)
        (ok "token")
        "127.0.0.1"
        bound
        (some sample_url)
      ≡ ok tt)
    ↔ ((path : String) × (config : ServerConfig) × (ok "/c" ≡ ok path)
        × (ok doctored ≡ ok config)
        × Healthy sample_probe
            (λ _. none)
            (λ _. answered tt)
            config
            (ok "token")
            bound
            (some sample_url))
run_doctor-Healthy_example =
    run_doctor-Healthy sample_probe (λ _. none) (λ _. answered tt) (λ _. "401") (ok "/c")
      (λ _. ok doctored) (ok "token") "127.0.0.1" bound (some sample_url)
