-- ===== src/Setup/Init/Initialized.antt =====
-- What stands on disk when a server has been initialized.
use acp_tunnel.Common.{ℕ, String, ◌≡◌, sym, inl, inr, Bool, true, false, some, List, Dict, get}
use acp_tunnel.Fault.{Error, Result, ok, err, Result-cases, >>=-eq-ok, >>-eq-ok, ok-injective}
use acp_tunnel.Files.{Node, file, World, answered, call_or, or_config}
use acp_tunnel.Files.Frame.{Stands, or_config-eq-ok, call_or-eq-ok}
use acp_tunnel.Files.Gives.{Gives, Anything, any-Gives, >>=-Gives}
use acp_tunnel.Files.Rules.{lift-Gives, done-Gives, if-Gives, Keeps-Gives}
use acp_tunnel.Config.{ServerConfig, validate}
use acp_tunnel.Setup.Private.{write_private_file}
use acp_tunnel.Setup.Private.Written.{write_private_file-Gives}
use acp_tunnel.Setup.Executable.{resolve_executable}
use acp_tunnel.Setup.Init.{
  InitOptions, InitReport, Machine, check_names, locate_workspace, generated, text_at, load,
  ensure_token, generate, write_config, initialize_server, not_read, new_token_text,
}
use acp_tunnel.Setup.Init.Kept.{text_at-same, write_config-Keeps, initialize_server-Keeps}

module _ (machine : Machine) (options : InitOptions) where
  -- A token that was created stands at its path.
  abbrev pub HasToken : Bool → Dict Node → Type 0
  HasToken true m = Stands m options.token_path (machine.as_bytes (new_token_text machine))
  HasToken false m = Unit

  abbrev pub HasConfig : String → Dict Node → Type 0
  HasConfig text m = get options.config_path m ≡ some (file 384 (machine.as_bytes text))

  -- The configuration that stands on disk, for its owner alone, is the one generated for the options; it
  -- reads as a configuration that is valid.
  pub record Initialized (report : InitReport) (m : Dict Node) : Type 0 where
    pub named : check_names options ≡ ok tt
    pub resolved :
        resolve_executable machine.os options.command machine.search_path ≡ ok report.command
    pub located : locate_workspace machine options.workspace_path ≡ ok report.workspace_path
    pub text : String
    pub printed :
        machine.to_string_pretty (generated options report.command report.workspace_path)
        ≡ answered text
    pub config : ServerConfig
    pub reads : machine.from_str text ≡ ok config
    pub valid : validate machine.lib config ≡ ok tt
    pub written : HasConfig text m
    pub token : HasToken report.token_created m

  ensure_token-Gives : Gives (ensure_token machine options.token_path) Anything HasToken
  unfolding ensure_token
  ensure_token-Gives =
      >>=-Gives _ _ Anything (λ _. Anything) HasToken (any-Gives _ Anything)
        λ there.
          if-Gives there _ _ Anything HasToken
            (>>=-Gives _ _ Anything (λ _. Anything) HasToken (any-Gives _ Anything)
              λ _. done-Gives false Anything HasToken (λ _ _. tt))
            (>>=-Gives _ _ Anything (λ _ m. HasToken true m) HasToken made
              λ _. done-Gives true (HasToken true) HasToken (λ _ h. h))
    where
      made :
          Gives
            (write_private_file machine.paths machine.fault machine.reach options.token_path
              (machine.as_bytes (new_token_text machine)))
            Anything
            (λ _ m. HasToken true m)
      made = record {
        gives = λ w p a e. (
          384,
          (write_private_file-Gives machine.paths machine.fault machine.reach options.token_path
                (machine.as_bytes (new_token_text machine))).gives
              w p a e,
        );
      }

  write_config-Gives :
      (text : String) (created : Bool)
      → options.force ≡ false
      → Gives
          (write_config machine options text)
          (HasToken created)
          (λ _ m. HasConfig text m × HasToken created m)
  unfolding write_config
  write_config-Gives text created fresh = by_token created
    where
      written : Gives (write_config machine options text) Anything (λ _ m. HasConfig text m)
      written =
          rw (fresh, write_config)
            (write_private_file-Gives machine.paths machine.fault machine.reach options.config_path
              (machine.as_bytes text))

      by_token :
          (created : Bool)
          → Gives
              (write_config machine options text)
              (HasToken created)
              (λ _ m. HasConfig text m × HasToken created m)
      by_token true =
          Keeps-Gives _ options.token_path (machine.as_bytes (new_token_text machine)) _
            (write_config-Keeps machine options.token_path
              (machine.as_bytes (new_token_text machine)) options text fresh)
            written
      by_token false = record { gives = λ w p a e. (written.gives w tt a e, tt) }

  -- A configuration that loads is only read.
  load-Gives : (P : Dict Node → Type 0) → Gives (load machine options.config_path) P (λ _. P)
  unfolding load
  load-Gives P =
      >>=-Gives _ _ P (λ _. P) (λ _. P) reading
        λ text.
          lift-Gives _ _ P (λ _. P)
            λ config _. lift-Gives _ _ P (λ _. P) λ _ _. done-Gives config P (λ _. P) (λ _ p. p)
    where
      reading :
          Gives
            (call_or machine.fault
              (text_at machine options.config_path)
              (not_read options.config_path))
            P
            (λ _. P)
      reading = record {
        gives = λ w p a e.
            let (_, after) =
              call_or-eq-ok machine.fault (text_at machine options.config_path)
                (not_read options.config_path) w a e in
            rw (after, text_at-same machine options.config_path w.entries) p;
      }

  generate-eq-ok :
      (command workspace_path text : String)
      → generate machine options command workspace_path ≡ ok text
      → (config : ServerConfig) × (machine.to_string_pretty
            (generated options command workspace_path)
          ≡ answered text)
        × (machine.from_str text ≡ ok config)
        × (validate machine.lib config ≡ ok tt)
  unfolding generate
  generate-eq-ok command workspace_path text e =
      let (t, p, e1) = >>=-eq-ok (or_config (machine.to_string_pretty _) _) _ e in
      let (config, r, e2) = >>=-eq-ok (machine.from_str t) _ e1 in
      let (checked, e3) = >>-eq-ok (validate machine.lib config) (ok t) e2 in
      let same : text ≡ t = sym (ok-injective t text e3) in
      (config, rw same (or_config-eq-ok (machine.to_string_pretty _) _ t p), rw same r, checked)

  initialize_server-Gives :
      options.force ≡ false → Gives (initialize_server machine options) Anything Initialized
  unfolding initialize_server
  initialize_server-Gives fresh = lift-Gives _ _ Anything Initialized λ _ named.
      lift-Gives _ _ Anything Initialized λ command resolved.
        lift-Gives _ _ Anything Initialized λ workspace_path located.
          >>=-Gives _ _ Anything (λ _. Anything) Initialized (any-Gives _ Anything)
            λ found. lift-Gives _ _ Anything Initialized λ _ _.
              >>=-Gives _ _ Anything HasToken Initialized ensure_token-Gives λ created.
                lift-Gives _ _ (HasToken created) Initialized λ text made.
                  let (config, printed, reads, valid) =
                    generate-eq-ok command workspace_path text made in
                  let Both = λ (m : Dict Node). HasConfig text m × HasToken created m in
                  >>=-Gives _ _ (HasToken created) (λ _. Both) Initialized
                    (write_config-Gives text created fresh)
                    λ _.
                      >>=-Gives _ _ Both (λ _. Both) Initialized (load-Gives Both)
                        λ _. done-Gives _ Both Initialized λ m (written, token). record {
                          named = named;
                          resolved = resolved;
                          located = located;
                          text = text;
                          printed = printed;
                          config = config;
                          reads = reads;
                          valid = valid;
                          written = written;
                          token = token;
                        }

  -- What an initialization ends in.
  pub data Outcome (m : Dict Node) : Result InitReport → Type 0 where
    initialized : (report : InitReport) → Initialized report m → Outcome m (ok report)
    refused : (e : Error) → Outcome m (err e)

  -- An initialization without `--force` loses nothing of any file that stands, whichever calls the
  -- operating system refuses; and if it succeeds, the configuration at its path is for its owner
  -- alone and is the text generated for the options, with a command that was resolved and a
  -- workspace that was found, reads as a configuration that passes the validation, and a token that
  -- was created stands at its path.
  pub initialize_server-Outcome :
      (q : String) (c : List ℕ) (w : World)
      → options.force ≡ false
      → Stands w.entries q c
      → Stands (initialize_server machine options w).1.entries q c
        × Outcome
            (initialize_server machine options w).1.entries
            (initialize_server machine options w).0
  initialize_server-Outcome q c w fresh h = (
    (initialize_server-Keeps machine q c options fresh).keeps w h,
    elim (Result-cases (initialize_server machine options w).0) [
      | inr (e, f) ↦ rw f (refused e)
      | inl (report, f) ↦
          let there = (initialize_server-Gives fresh).gives w tt report f in
          rw f (initialized report there)
    ],
  )
