-- ===== src/Setup/Executable.antt =====
-- src/setup.rs: which file a command is. What the operating system answers about files, and what
-- std::path makes of a text, is a record; the answers do not change while a command is looked for.
pub mod Resolved
use acp_tunnel.Common.{
  ℕ, String, Bool, true, false, ◌||◌, ◌&&◌, not, Option, none, some, List, [], ◌∷◌, ltb, ◌==◌,
  bit_and, format, if◌then◌else◌,
}
use acp_tunnel.Fault.{Error, config, Result, ok, err, ◌>>=◌}
use acp_tunnel.Files.{Answer, answered, failed, or_config}

pub data Kind : Type 0 where
  regular dir other : Kind

pub record Metadata : Type 0 where
  pub kind : Kind
  pub mode : ℕ

abbrev pub is_file : Metadata → Bool
is_file metadata = elim metadata.kind [ regular ↦ true | _ ↦ false ]

abbrev pub is_dir : Metadata → Bool
is_dir metadata = elim metadata.kind [ dir ↦ true | _ ↦ false ]

pub record Probe : Type 0 where
  pub metadata : String → Answer Metadata
  pub canonicalize : String → Answer String
  pub is_absolute : String → Bool
  pub components : String → ℕ
  pub split_paths : String → List String
  pub join : String → String → String

module _ (os : Probe) where
  -- 0o111
  unfoldable pub is_executable : String → Bool
  is_executable path = elim (os.metadata path) [
    | failed _ ↦ false
    | answered metadata ↦ is_file metadata && not (bit_and metadata.mode 73 == 0)
  ]

  abbrev pub cannot_resolve : String → String → String
  cannot_resolve path error = format ("cannot resolve executable " ∷ path ∷ ": " ∷ error ∷ [])

  unfoldable pub canonical_executable : String → Result String
  unfolding is_executable
  canonical_executable path =
      or_config (os.canonicalize path) (cannot_resolve path) >>= λ canonical.
      if is_executable canonical
      then ok canonical
      else err (
          config
            (format ("configured executable " ∷ canonical ∷ " is not an executable file" ∷ [])))

  -- The loop over the directories of the search path.
  unfoldable pub search_directories : String → List String → Result String
  search_directories command [] =
      err (config (format ("cannot find executable " ∷ command ∷ " in PATH" ∷ [])))
  search_directories command (directory ∷ directories) =
      let candidate = os.join directory command in
      let rest = search_directories command directories in
      let found = or_config (os.canonicalize candidate) (cannot_resolve candidate) in
      if is_executable candidate then found else rest

  unfoldable pub resolve_executable : String → Option String → Result String
  unfolding canonical_executable search_directories
  resolve_executable command search_path =
      if os.is_absolute command || ltb 1 (os.components command)
      then canonical_executable command
      else elim search_path [
        | none ↦ err (
            config (
              format
                ("cannot resolve executable " ∷ command ∷ " because PATH is unavailable" ∷ [])))
        | some search_path ↦ search_directories command (os.split_paths search_path)
      ]
