-- ===== src/Setup/Private/Written.antt =====
-- What the writing of a private file keeps, and what it gives.
use acp_tunnel.Common.{
  ℕ, String, ◌≡◌, ◌≢◌, inl, inr, Option, some, List, [], Dict, get, Option-cases,
}
use acp_tunnel.Fault.{ok, err, Result-cases}
use acp_tunnel.Files.{
  failed, ◌>>=◌, ◌>>◌, call_or, World, Node, file, PathLib, answered, Fs, done, exists_at,
  create_dirs, create_new, set_permissions, write_all,
}
use acp_tunnel.Files.Frame.{
  Stands, Keeps, >>=-Keeps, call-Stands, call_or-Keeps, call_or-eq-ok, write_all-Stands,
  set_permissions-Stands, create_dirs-Stands, create_new-Stands,
}
use acp_tunnel.Files.Gives.{
  Gives, Anything, any-Gives, >>=-Gives, create_new-Gives, set_permissions-Gives, append_at-file,
}
use acp_tunnel.Files.Rules.{required-Keeps, if-Keeps, done-Keeps}
use acp_tunnel.Setup.Private.{
  set_private_directory_permissions, set_private_file_permissions, exists, write_or,
  write_private_file,
}

create_new-taken :
    (path : String) (mode old : ℕ) (bytes : List ℕ) (m : Dict Node)
    → get path m ≡ some (file old bytes)
    → (create_new path mode m).0 ≢ answered tt
unfolding create_new
create_new-taken path mode old bytes m there =
    rw (there, create_new) (λ (e : failed "already exists" ≡ answered tt). cc)

module _ (paths : PathLib) (fault : ℕ → Option String) (reach : ℕ → ℕ) where
  directory_permissions-Keeps :
      (path q : String) (c : List ℕ)
      → Keeps q c (set_private_directory_permissions paths fault reach path)
  unfolding set_private_directory_permissions
  directory_permissions-Keeps path q c =
      call_or-Keeps fault (set_permissions path 448) _ q c
        (λ m k. set_permissions-Stands path 448 m q c k)

  pub file_permissions-Keeps :
      (path q : String) (c : List ℕ)
      → Keeps q c (set_private_file_permissions paths fault reach path)
  unfolding set_private_file_permissions
  file_permissions-Keeps path q c =
      call_or-Keeps fault (set_permissions path 384) _ q c
        (λ m k. set_permissions-Stands path 384 m q c k)

  pub exists-Keeps : (path q : String) (c : List ℕ) → Keeps q c (exists paths fault reach path)
  unfolding exists
  exists-Keeps path q c = record {
    keeps = λ w h. call-Stands fault (λ m. (answered (exists_at m path), m)) q c w (λ m k. k) h;
  }

  write_or-Keeps :
      (path : String) (bytes : List ℕ) (q : String) (c : List ℕ)
      → path ≢ q
      → Keeps q c (write_or paths fault reach path bytes)
  unfolding write_or
  write_or-Keeps path bytes q c ne = record {
    keeps = λ w h. write_all-Stands fault reach path bytes q c w ne h;
  }

  -- A file that is created in vain, for one stands there, is not written to.
  create-Keeps :
      (path : String) (mode : ℕ) (message : String → String) (rest : Fs (Unit {0})) (q : String)
      (c : List ℕ)
      → (path ≢ q → Keeps q c rest)
      → Keeps q c (call_or fault (create_new path mode) message >> rest)
  unfolding ◌>>=◌
  create-Keeps path mode message rest q c kept = record {
    keeps = λ w h.
        let first = call_or fault (create_new path mode) message in
        let h1 =
          call_or-Keeps fault (create_new path mode) message q c
            (λ m k. create_new-Stands path mode m q c k) in
        elim (Result-cases (first w).0) [
          | inr (m, e) ↦ rw (e, ◌>>=◌) (h1.keeps w h)
          | inl (a, e) ↦ rw (e, ◌>>=◌) ((kept (taken w h a e)).keeps (first w).1 (h1.keeps w h))
        ];
  }
    where
      taken :
          (w : World)
          → Stands w.entries q c
          → (a : Unit {0}) → (call_or fault (create_new path mode) message w).0 ≡ ok a
          → path ≢ q
      taken w h a e same =
          let (made, _) = call_or-eq-ok fault (create_new path mode) message w a e in
          create_new-taken path mode h.0 c w.entries (rw same h.1) made

  -- A writing loses no file that stands.
  pub write_private_file-Keeps :
      (path : String) (bytes : List ℕ) (q : String) (c : List ℕ)
      → Keeps q c (write_private_file paths fault reach path bytes)
  unfolding write_private_file
  write_private_file-Keeps path bytes q c = >>=-Keeps q c _ _ (required-Keeps _ _ q c) λ parent.
      >>=-Keeps q c _ _ (exists-Keeps parent q c) λ there.
        >>=-Keeps q c _ _
          (call_or-Keeps fault (create_dirs (paths.ancestors parent)) _ q c
            (λ m k. create_dirs-Stands (paths.ancestors parent) m q c k))
          λ _.
            >>=-Keeps q c _ _
              (if-Keeps there (done tt) _ q c (done-Keeps tt q c)
                (directory_permissions-Keeps parent q c))
              λ _. create-Keeps path 384 _ _ q c λ ne.
                >>=-Keeps q c _ _ (write_or-Keeps path bytes q c ne)
                  λ _. file_permissions-Keeps path q c

  write_or-Gives :
      (path : String) (mode : ℕ) (bytes : List ℕ)
      → Gives
          (write_or paths fault reach path bytes)
          (λ m. get path m ≡ some (file mode []))
          (λ _ m. get path m ≡ some (file mode bytes))
  unfolding write_or write_all
  write_or-Gives path mode bytes = record {
    gives = λ w p a. elim (Option-cases (fault w.calls)) [
      | inr (m, f) ↦ rw (f, write_all) (λ (e : err _ ≡ ok a). cc)
      | inl f ↦ rw (f, write_all) (λ _. append_at-file path mode [] bytes w.entries p)
    ];
  }

  -- A writing that succeeds has made a new file with all the bytes, for its owner alone.
  pub write_private_file-Gives :
      (path : String) (bytes : List ℕ)
      → Gives
          (write_private_file paths fault reach path bytes)
          Anything
          (λ _ m. get path m ≡ some (file 384 bytes))
  unfolding write_private_file set_private_file_permissions
  write_private_file-Gives path bytes =
      let Q = λ (_ : Unit {0}) (m : Dict Node). get path m ≡ some (file 384 bytes) in
      let N = λ (_ : Unit {0}) (m : Dict Node). get path m ≡ some (file 384 []) in
      >>=-Gives _ _ Anything (λ _. Anything) Q (any-Gives _ Anything)
        λ parent.
          >>=-Gives _ _ Anything (λ _. Anything) Q (any-Gives _ Anything)
            λ there.
              >>=-Gives _ _ Anything (λ _. Anything) Q (any-Gives _ Anything)
                λ _.
                  >>=-Gives _ _ Anything (λ _. Anything) Q (any-Gives _ Anything)
                    λ _. >>=-Gives _ _ Anything N Q (create_new-Gives fault path 384 _) λ _.
                      >>=-Gives _ _ (N tt) Q Q (write_or-Gives path 384 bytes)
                        λ _. set_permissions-Gives fault path 384 384 bytes _
