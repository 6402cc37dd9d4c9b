-- ===== src/Setup/Executable/Resolved.antt =====
-- A command that is resolved is an executable file.
use acp_tunnel.Common.{
  String, ◌≡◌, refl, inl, inr, ◌⊎◌, ◌↔◌, Bool, true, false, ◌||◌, Option, some, List, [], ◌∷◌, ◌++◌,
  ltb, Bool-cases, Option-cases, All,
}
use acp_tunnel.Fault.{ok, err, >>=-eq-ok, ok-injective}
use acp_tunnel.Files.{answered, or_config}
use acp_tunnel.Files.Frame.{or_config-eq-ok}
use acp_tunnel.Setup.Executable.{
  Probe, is_executable, canonical_executable, search_directories, resolve_executable,
}

module _ (os : Probe) where
  -- The first directory that has an executable file of this name.
  pub record Leads (command : String) (directories : List String) (canonical : String)
      : Type 0 where
    pub before : List String
    pub directory : String
    pub after : List String
    pub split : directories ≡ before ++ directory ∷ after
    pub passed : All (λ d. is_executable os (os.join d command) ≡ false) before
    pub executable : is_executable os (os.join directory command) ≡ true
    pub target : os.canonicalize (os.join directory command) ≡ answered canonical

  search_directories-Leads :
      (command : String) (directories : List String) (canonical : String)
      → search_directories os command directories ≡ ok canonical
      → Leads command directories canonical
  unfolding search_directories
  search_directories-Leads command [] canonical e = cc
  search_directories-Leads command (d ∷ ds) canonical e =
      elim (Bool-cases (is_executable os (os.join d command))) [
        | inl here ↦ record {
          before = [];
          directory = d;
          after = ds;
          split = refl;
          passed = tt;
          executable = here;
          target = or_config-eq-ok (os.canonicalize (os.join d command)) _ canonical (rw here at e);
        }
        | inr later ↦
            further d ds later (search_directories-Leads command ds canonical (rw later at e))
      ]
    where
      further :
          (d : String) (ds : List String)
          → is_executable os (os.join d command) ≡ false
          → Leads command ds canonical
          → Leads command (d ∷ ds) canonical
      further d ds later l = record {
        before = d ∷ l.before;
        directory = l.directory;
        after = l.after;
        split = rw l.split refl;
        passed = (later, l.passed);
        executable = l.executable;
        target = l.target;
      }

  Leads-search_directories :
      (command canonical : String) (directory : String) (after before : List String)
      → All (λ d. is_executable os (os.join d command) ≡ false) before
      → is_executable os (os.join directory command) ≡ true
      → os.canonicalize (os.join directory command) ≡ answered canonical
      → search_directories os command (before ++ directory ∷ after) ≡ ok canonical
  unfolding search_directories
  Leads-search_directories command canonical directory after [] passed here target =
      rw (here, target) refl
  Leads-search_directories command canonical directory after (d ∷ before) passed here target =
      rw (passed.0)
        (Leads-search_directories command canonical directory after before passed.1 here target)

  abbrev pub has_directory : String → Bool
  has_directory command = os.is_absolute command || ltb 1 (os.components command)

  -- A command with a directory leads to an executable file of its own, and one without to the first
  -- in the search path.
  abbrev pub Resolves : String → Option String → String → Type 0
  Resolves command search_path canonical =
      ((has_directory command ≡ true)
        × (os.canonicalize command ≡ answered canonical)
        × (is_executable os canonical ≡ true))
      ⊎ ((text : String) × (has_directory command ≡ false)
          × (search_path ≡ some text)
          × Leads command (os.split_paths text) canonical)

  canonical_executable-eq-ok :
      (command canonical : String)
      → canonical_executable os command ≡ ok canonical
      → (os.canonicalize command ≡ answered canonical) × (is_executable os canonical ≡ true)
  unfolding canonical_executable
  canonical_executable-eq-ok command canonical e =
      let (found, f, e1) = >>=-eq-ok (or_config (os.canonicalize command) _) _ e in
      elim (Bool-cases (is_executable os found)) [
        | inl runs ↦
            let same : found ≡ canonical = ok-injective found canonical (rw runs at e1) in
            (or_config-eq-ok _ _ canonical (rw same at f), rw (← same) runs)
        | inr lacks ↦ let stopped : err _ ≡ ok canonical = rw lacks at e1 in cc
      ]

  pub resolve_executable_iff :
      (command : String) (search_path : Option String) (canonical : String)
      → (resolve_executable os command search_path ≡ ok canonical)
        ↔ Resolves command search_path canonical
  unfolding resolve_executable
  resolve_executable_iff command search_path canonical = (resolved, found)
    where
      resolved :
          resolve_executable os command search_path ≡ ok canonical
          → Resolves command search_path canonical
      resolved e = elim (Bool-cases (has_directory command)) [
        | inl direct ↦
            let (target, runs) = canonical_executable-eq-ok command canonical (rw direct at e) in
            inl (direct, target, runs)
        | inr bare ↦ elim (Option-cases search_path) [
          | inl missing ↦ let stopped : err _ ≡ ok canonical = rw (bare, missing) at e in cc
          | inr (text, there) ↦ inr (
            text,
            bare,
            there,
            search_directories-Leads command (os.split_paths text) canonical
                (rw (bare, there) at e),
          )
        ]
      ]

      found :
          Resolves command search_path canonical
          → resolve_executable os command search_path ≡ ok canonical
      found (inl (direct, target, runs)) = rw (direct, target, runs) refl
      found (inr (text, bare, there, l)) =
          rw (bare, there, l.split)
            (Leads-search_directories command canonical l.directory l.after l.before l.passed
              l.executable l.target)
