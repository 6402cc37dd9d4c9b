-- ===== src/Setup/Private/Replaced.antt =====
-- Whatever fails while a file is replaced, one of the two files stands under a name that is known.
use acp_tunnel.Common.{ℕ, String, ◌≡◌, ◌≢◌, sym, ◌∙◌, inl, inr, Option, none, some, List, Dict, get}
use acp_tunnel.Fault.{Error, Result, ok, err, Result-cases, ok-injective}
use acp_tunnel.Files.{
  Node, file, World, PathLib, Fs, ◌>>=◌, ◌>>◌, lift, call, call_or, rename, remove_file,
}
use acp_tunnel.Files.Frame.{
  Stands, Keeps, call-cases, call-get, call-Stands, remove_file-other, remove_file-Stands,
  get-insert_self, get-remove_self, get-remove_other,
}
use acp_tunnel.Files.Moved.{remove_file-removes, moved-gone, moved-other, move-cases}
use acp_tunnel.Setup.Private.{
  set_private_file_permissions, write_private_file, sibling_path, restore, give_up, install,
  preserve, replace_private_file,
}
use acp_tunnel.Setup.Private.Written.{
  file_permissions-Keeps, write_private_file-Keeps, write_private_file-Gives,
}
use acp_tunnel.Files.Rules.{lift-Keeps}

-- What a replacement may end in.
pub data Replaced (path backup : String) (old new : List ℕ) (m : Dict Node)
    : Result (Unit {0}) → Type 0 where
  replaced :
      get path m ≡ some (file 384 new)
      → get backup m ≡ none
      → Replaced path backup old new m (ok tt)
  unchanged : (e : Error) → Stands m path old → Replaced path backup old new m (err e)
  left_over :
      (e : Error)
      → get path m ≡ some (file 384 new)
      → Stands m backup old
      → Replaced path backup old new m (err e)
  stranded :
      (e : Error) → get path m ≡ none → Stands m backup old → Replaced path backup old new m (err e)

module _ (paths : PathLib) (fault : ℕ → Option String) (reach : ℕ → ℕ) where
  module _ (path temporary backup : String) (old new : List ℕ) (apart : path ≢ temporary)
      (kept_apart : path ≢ backup) (both : temporary ≢ backup) where
    remove_temporary-Stands :
        (q : String) (c : List ℕ) (w : World)
        → temporary ≢ q
        → Stands w.entries q c
        → Stands (call fault (remove_file temporary) w).1.entries q c
    remove_temporary-Stands q c w ne h =
        call-Stands fault (remove_file temporary) q c w
          (λ m k. remove_file-Stands temporary m q c ne k) h

    give_up-Replaced :
        (error : String) (w : World)
        → Stands w.entries path old
        → Replaced path backup old new
            (give_up paths fault reach path temporary error w).1.entries
            (give_up paths fault reach path temporary error w).0
    unfolding give_up
    give_up-Replaced error w h =
        unchanged _ (remove_temporary-Stands path old w (λ e. apart (sym e)) h)

    restore-Replaced :
        (error : String) (w : World)
        → get path w.entries ≡ none
        → Stands w.entries backup old
        → Replaced path backup old new
            (restore paths fault reach path temporary backup error w).1.entries
            (restore paths fault reach path temporary backup error w).0
    unfolding restore
    restore-Replaced error w gone (mode, kept) =
        elim (move-cases fault backup path w (file mode old) kept) [
          | inl (e, _, same) ↦
              let w1 = (call fault (rename backup path) w).1 in
              stranded _
                (call-get fault (remove_file temporary) path w1
                    (λ m. remove_file-other temporary m path (λ e. apart (sym e)))
                  ∙ rw same gone)
                (remove_temporary-Stands backup old w1 both (rw same (mode, kept)))
          | inr (_, after) ↦ unchanged _ (
              remove_temporary-Stands path old (call fault (rename backup path) w).1
                (λ e. apart (sym e)) (rw after (mode, get-insert_self path _ _)))
        ]

    clean_up-Replaced :
        (mode : ℕ) (w : World) (message : String → String)
        → get path w.entries ≡ some (file 384 new)
        → get backup w.entries ≡ some (file mode old)
        → Replaced path backup old new
            (call_or fault (remove_file backup) message w).1.entries
            (call_or fault (remove_file backup) message w).0
    unfolding call_or
    clean_up-Replaced mode w message made kept = elim (call-cases fault (remove_file backup) w) [
      | inl (e, told, same) ↦ rw (told, call_or) (left_over _ (rw same made) (rw same (mode, kept)))
      | inr (told, after) ↦
          let removed = remove_file-removes backup mode old w.entries kept in
          rw (told, removed.0, call_or)
            (replaced
              (rw (after, removed.1)
                (get-remove_other path backup w.entries (λ e. kept_apart (sym e)) ∙ made))
              (rw (after, removed.1) (get-remove_self backup w.entries)))
    ]

    install-Replaced :
        (w : World)
        → get path w.entries ≡ none
        → Stands w.entries backup old
        → get temporary w.entries ≡ some (file 384 new)
        → Replaced path backup old new
            (install paths fault reach path temporary backup w).1.entries
            (install paths fault reach path temporary backup w).0
    unfolding install
    install-Replaced w gone (mode, kept) made =
        elim (move-cases fault temporary path w (file 384 new) made) [
          | inl (e, told, same) ↦
              rw (told, install)
                (restore-Replaced e (call fault (rename temporary path) w).1 (rw same gone)
                  (rw same (mode, kept)))
          | inr (told, after) ↦
              let w1 = (call fault (rename temporary path) w).1 in
              let kept1 : get backup w1.entries ≡ some (file mode old) =
                rw after
                  (moved-other temporary path backup w.entries (file 384 new) both kept_apart)
                ∙ kept in
              let made1 : get path w1.entries ≡ some (file 384 new) =
                rw after (get-insert_self path (file 384 new) _) in
              rw (told, install) (clean_up-Replaced mode w1 _ made1 kept1)
        ]

    preserve-Replaced :
        (w : World)
        → Stands w.entries path old
        → get temporary w.entries ≡ some (file 384 new)
        → Replaced path backup old new
            (preserve paths fault reach path temporary backup w).1.entries
            (preserve paths fault reach path temporary backup w).0
    unfolding preserve
    preserve-Replaced w (mode, h) made = elim (move-cases fault path backup w (file mode old) h) [
      | inl (e, told, same) ↦
          rw (told, preserve)
            (give_up-Replaced e (call fault (rename path backup) w).1 (rw same (mode, h)))
      | inr (told, after) ↦
          rw (told, preserve)
            (install-Replaced (call fault (rename path backup) w).1
              (rw after
                (moved-gone path backup w.entries (file mode old) (λ e. kept_apart (sym e))))
              (rw after (mode, get-insert_self backup (file mode old) _))
              (rw after (
                moved-other path backup temporary w.entries (file mode old) apart
                  (λ e. both (sym e))
                ∙ made)))
    ]

  -- A step that loses nothing, and after which the rest does well.
  step-Replaced :
      {A : Type 0} (path backup : String) (old new : List ℕ) (first : Fs A)
      (rest : A → Fs (Unit {0})) (w : World)
      → Keeps path old first
      → Stands w.entries path old
      → ((a : A)
          → (first w).0 ≡ ok a
          → Stands (first w).1.entries path old
          → Replaced path backup old new (rest a (first w).1).1.entries (rest a (first w).1).0)
      → Replaced path backup old new ((first >>= rest) w).1.entries ((first >>= rest) w).0
  unfolding ◌>>=◌
  step-Replaced path backup old new first rest w k h l = elim (Result-cases (first w).0) [
    | inl (a, e) ↦ rw (e, ◌>>=◌) (l a e (k.keeps w h))
    | inr (m, e) ↦ rw (e, ◌>>=◌) (unchanged m (k.keeps w h))
  ]

  -- theorem
  write_and_preserve-Replaced :
      (path temporary backup : String) (old new : List ℕ)
      → path ≢ temporary
      → path ≢ backup
      → temporary ≢ backup
      → (w : World) → Stands w.entries path old
      → Replaced path backup old new
          ((write_private_file paths fault reach temporary new
              >> preserve paths fault reach path temporary backup)
            w).1.entries
          ((write_private_file paths fault reach temporary new
              >> preserve paths fault reach path temporary backup)
            w).0
  write_and_preserve-Replaced path t b old new pt pb tb w h =
      step-Replaced path b old new _ _ w (write_private_file-Keeps paths fault reach t new path old)
        h
        λ _ made h1.
          preserve-Replaced path t b old new pt pb tb
            (write_private_file paths fault reach t new w).1 h1
            ((write_private_file-Gives paths fault reach t new).gives w tt tt made)

  -- Where the names of the two files beside it are different from it and from each other, the
  -- replacement of a file ends in one of four ways, whichever calls the operating system refuses:
  -- it succeeds, and the new contents stand at the path for its owner alone and no backup is left;
  -- or it fails with the old contents at the path, or with the new contents at the path and the old
  -- ones in the backup, or with the path empty and the old contents in the backup.
  pub replace_private_file-Replaced :
      (random_new random_old path temporary backup : String) (mode : ℕ) (old new : List ℕ)
      (w : World)
      → sibling_path paths fault reach path "new" random_new ≡ ok temporary
      → sibling_path paths fault reach path "old" random_old ≡ ok backup
      → path ≢ temporary
      → path ≢ backup
      → temporary ≢ backup
      → get path w.entries ≡ some (file mode old)
      → Replaced path backup old new
          (replace_private_file paths fault reach random_new random_old path new w).1.entries
          (replace_private_file paths fault reach random_new random_old path new w).0
  unfolding replace_private_file lift
  replace_private_file-Replaced rn ro path t b mode old new w et eb pt pb tb h =
      step-Replaced path b old new _ _ w (file_permissions-Keeps paths fault reach path path old)
        (mode, h)
        λ _ _ h1.
          let w1 = (set_private_file_permissions paths fault reach path w).1 in
          step-Replaced path b old new _ _ w1 (lift-Keeps _ path old) h1 λ t' e1 h2.
            step-Replaced path b old new _
              (λ b'.
                write_private_file paths fault reach t' new
                >> preserve paths fault reach path t' b')
              w1 (lift-Keeps _ path old) h2
              λ b' e2 h3.
                rw (ok-injective t' t (sym e1 ∙ et), ok-injective b' b (sym e2 ∙ eb))
                  (write_and_preserve-Replaced path t b old new pt pb tb w1 h3)
