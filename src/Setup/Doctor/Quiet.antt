-- ===== src/Setup/Doctor/Quiet.antt =====
-- A report without an error, and what the parts of a server that can run are.
use acp_tunnel.Common.{
  String, ◌≡◌, refl, ◌↔◌, ◌++◌, true, false, ◌||◌, Option, none, some, List, [], ◌∷◌, Dict, arith,
}
use acp_tunnel.Fault.{Result, ok, err}
use acp_tunnel.Files.{Answer, answered, failed}
use acp_tunnel.Config.{TlsConfig}
use acp_tunnel.Setup.Executable.{Metadata, Probe, is_file, is_dir}
use acp_tunnel.Setup.Doctor.Notices.{
  DoctorReport, has_errors, Binding, unbound, http, PublicUrl, any, each,
}

abbrev pub Quiet : DoctorReport → Type 0
Quiet report = has_errors report ≡ false

pub has_errors-append : (a b : DoctorReport) → has_errors (a ++ b) ≡ (has_errors a || has_errors b)
unfolding has_errors
has_errors-append [] b = refl
has_errors-append (n ∷ a) b = ground (arith, has_errors-append a b)

pub Quiet-append : (a b : DoctorReport) → Quiet (a ++ b) ↔ (Quiet a × Quiet b)
Quiet-append a b = ground (arith, has_errors-append a b)

-- Every entry of a map.
abbrev pub Each : {V : Type 0} → (String → V → Type 0) → Dict V → Type 0
Each P [] = Unit
Each P ((id, v) ∷ m) = P id v × Each P m

pub each-Quiet :
    {V : Type 0} (f : String → V → DoctorReport) (P : String → V → Type 0)
    → ((id : String) (v : V) → Quiet (f id v) ↔ P id v)
    → (m : Dict V) → Quiet (each f m) ↔ Each P m
unfolding has_errors
each-Quiet f P same [] = (λ _. tt, λ _. refl)
each-Quiet f P same ((id, v) ∷ m) =
    let (there, back) = Quiet-append (f id v) (each f m) in
    let (into, from) = each-Quiet f P same m in
    (
      λ q. let (a, b) = there q in ((same id v).0 a, into b),
      λ p. back ((same id v).1 p.0, from p.1),
    )

abbrev pub IsAnswered : {A : Type 0} → Answer A → Type 0
IsAnswered (answered _) = Unit
IsAnswered (failed _) = ⊥

abbrev pub IsDirectory : Answer Metadata → Type 0
IsDirectory (answered metadata) = is_dir metadata ≡ true
IsDirectory (failed _) = ⊥

abbrev pub IsFile : Answer Metadata → Type 0
IsFile (answered metadata) = is_file metadata ≡ true
IsFile (failed _) = ⊥

abbrev pub Succeeds : {A : Type 0} → Result A → Type 0
Succeeds (ok _) = Unit
Succeeds (err _) = ⊥

-- The address is free, or a server may hold it already.
abbrev pub IsUsable : Binding → Type 0
IsUsable (unbound _) = ⊥
IsUsable _ = Unit

abbrev pub HasTlsFiles : Probe → Option TlsConfig → Type 0
HasTlsFiles os none = Unit
HasTlsFiles os (some tls) = IsFile (os.metadata tls.cert_path) × IsFile (os.metadata tls.key_path)

-- An address takes a connection, and the route refuses a client without a credential.
abbrev pub IsReachable : Option PublicUrl → Type 0
IsReachable none = Unit
IsReachable (some url) =
    Succeeds url.check
    × ((addresses : List url.Address) × (url.socket_addrs ≡ answered addresses)
        × (any url.connects addresses ≡ true))
    × (url.handshake ≡ http 401)
