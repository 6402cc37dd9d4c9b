-- ===== src/Setup/Private.antt =====
-- src/setup.rs: writing and replacing a file that only its owner may read.
-- The random parts of the names beside a file are arguments.
pub mod Written
pub mod Replaced
use acp_tunnel.Common.{
  ℕ, String, Option, none, some, Bool, List, [], ◌∷◌, format, if◌then◌else◌, not,
}
use acp_tunnel.Fault.{Error, config, Result, ok, err}
use acp_tunnel.Files.{
  Answer, answered, failed, PathLib, World, Fs, ◌>>=◌, ◌>>◌, done, lift, required, call, call_or,
  or_config, exists_at, create_dirs, create_new, set_permissions, write_all, rename, remove_file,
}

module _ (paths : PathLib) (fault : ℕ → Option String) (reach : ℕ → ℕ) where
  abbrev pub about : String → String → String → String
  about before path error = format (before ∷ path ∷ ": " ∷ error ∷ [])

  -- 0o700
  unfoldable pub set_private_directory_permissions : String → Fs (Unit {0})
  set_private_directory_permissions path =
      call_or fault (set_permissions path 448) (about "cannot set permissions on " path)

  -- 0o600
  unfoldable pub set_private_file_permissions : String → Fs (Unit {0})
  set_private_file_permissions path =
      call_or fault (set_permissions path 384) (about "cannot set permissions on " path)

  abbrev pub is_told : Answer Bool → Bool
  is_told (answered b) = b
  is_told (failed _) = Bool.false

  -- `exists` answers no where the operating system refuses.
  unfoldable pub exists : String → Fs Bool
  exists path w =
      let asked = call fault (λ m. (answered (exists_at m path), m)) w in
      (ok (is_told asked.0), asked.1)

  unfoldable pub write_or : String → List ℕ → Fs (Unit {0})
  write_or path bytes w = (
    or_config (write_all fault reach path bytes w).0 (about "cannot write " path),
    (write_all fault reach path bytes w).1,
  )

  unfoldable pub write_private_file : String → List ℕ → Fs (Unit {0})
  unfolding set_private_directory_permissions set_private_file_permissions exists
  write_private_file path contents = do
    parent ←
        required (paths.parent path) (format ("path " ∷ path ∷ " has no parent directory" ∷ []))
    parent_exists ← exists parent
    call_or fault (create_dirs (paths.ancestors parent)) (about "cannot create directory " parent)
    if parent_exists then done tt else set_private_directory_permissions parent
    call_or fault (create_new path 384) (about "cannot write " path)
    write_or path contents
    set_private_file_permissions path

  unfoldable pub sibling_path : String → String → String → Result String
  sibling_path path kind random = elim (paths.parent path) [
    | none ↦ err (config (format ("path " ∷ path ∷ " has no parent directory" ∷ [])))
    | some parent ↦ elim (paths.file_name path) [
      | none ↦ err (config (format ("path " ∷ path ∷ " has no file name" ∷ [])))
      | some name ↦ ok (paths.join parent (format ("." ∷ name ∷ "." ∷ kind ∷ "-" ∷ random ∷ [])))
    ]
  ]

  abbrev pub not_replaced : String → String → Answer (Unit {0}) → Error
  not_replaced path error (answered _) =
      config
        (format ("cannot replace " ∷ path ∷ ": " ∷ error ∷ ". The original file was restored" ∷ []))
  not_replaced path error (failed restore_error) = config (
      format (
        "cannot replace " ∷ path ∷ ": " ∷ error ∷ ". Cannot restore original file: " ∷ restore_error
        ∷ []))

  -- The new file could not take the name: the original is put back, and the new file removed.
  unfoldable pub restore : String → String → String → String → Fs (Unit {0})
  restore path temporary backup error w =
      let restored = call fault (rename backup path) w in
      (err (not_replaced path error restored.0), (call fault (remove_file temporary) restored.1).1)

  -- The original could not be kept under another name.
  unfoldable pub give_up : String → String → String → Fs (Unit {0})
  give_up path temporary error w =
      let (_, w1) = call fault (remove_file temporary) w in
      (err (config (format ("cannot preserve " ∷ path ∷ " before replacement: " ∷ error ∷ []))), w1)

  -- The new file takes the name of the original, which stands under the backup's name.
  unfoldable pub install : String → String → String → Fs (Unit {0})
  unfolding restore
  install path temporary backup w =
      let (moved, w1) = call fault (rename temporary path) w in
      elim moved [
        | failed error ↦ restore path temporary backup error w1
        | answered _ ↦
            call_or fault (remove_file backup)
              (λ error. format (
                "configuration was replaced, but backup " ∷ backup ∷ " cannot be removed: " ∷ error
                ∷ []))
              w1
      ]

  unfoldable pub preserve : String → String → String → Fs (Unit {0})
  unfolding give_up install
  preserve path temporary backup w =
      let (kept, w1) = call fault (rename path backup) w in
      elim kept [
        | failed error ↦ give_up path temporary error w1
        | answered _ ↦ install path temporary backup w1
      ]

  unfoldable pub replace_private_file : String → String → String → List ℕ → Fs (Unit {0})
  replace_private_file random_new random_old path contents = do
    set_private_file_permissions path
    temporary ← lift (sibling_path path "new" random_new)
    backup ← lift (sibling_path path "old" random_old)
    write_private_file temporary contents
    preserve path temporary backup
