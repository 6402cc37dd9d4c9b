-- ===== src/Setup/Init/Kept.antt =====
-- The first configuration of a server is written beside what stands, and never over it.
use acp_tunnel.Common.{ℕ, String, ◌≡◌, refl, inl, inr, true, false, List, Dict, get, Option-cases}
use acp_tunnel.Files.{Node, file, directory, link, answered, node_at}
use acp_tunnel.Files.Frame.{Keeps, >>=-Keeps, call-Stands, call_or-Keeps}
use acp_tunnel.Setup.Private.Written.{write_private_file-Keeps, exists-Keeps}
use acp_tunnel.Files.Rules.{if-Keeps, done-Keeps, lift-Keeps}
use acp_tunnel.Setup.Init.{
  InitOptions, Machine, symlink_metadata, text_at, load_token_file, load, ensure_token,
  write_config, initialize_server, not_read,
}

pub text_at-same :
    (machine : Machine) (path : String) (m : Dict Node) → (text_at machine path m).1 ≡ m
text_at-same machine path m = elim (Option-cases (node_at m path)) [
  | inl missing ↦ rw (missing, text_at) refl
  | inr (directory mode, there) ↦ rw (there, text_at) refl
  | inr (link target, there) ↦ rw (there, text_at) refl
  | inr (file mode bytes, there) ↦ elim (Option-cases (machine.from_utf8 bytes)) [
    | inl unread ↦ rw (there, unread, text_at) refl
    | inr (text, read) ↦ rw (there, read, text_at) refl
  ]
]

module _ (machine : Machine) (q : String) (c : List ℕ) where
  symlink_metadata-Keeps : (path : String) → Keeps q c (symlink_metadata machine path)
  unfolding symlink_metadata
  symlink_metadata-Keeps path = record {
    keeps = λ w h. call-Stands machine.fault (λ m. (answered (get path m), m)) q c w (λ m k. k) h;
  }

  load_token_file-Keeps : (path : String) → Keeps q c (load_token_file machine path)
  unfolding load_token_file
  load_token_file-Keeps path = record { keeps = λ w h. h }

  load-Keeps : (path : String) → Keeps q c (load machine path)
  unfolding load
  load-Keeps path =
      >>=-Keeps q c _ _
        (call_or-Keeps machine.fault (text_at machine path) (not_read path) q c
          (λ m k. rw (text_at-same machine path m) k))
        λ text.
          >>=-Keeps q c _ _ (lift-Keeps _ q c)
            λ config. >>=-Keeps q c _ _ (lift-Keeps _ q c) λ _. done-Keeps config q c

  ensure_token-Keeps : (path : String) → Keeps q c (ensure_token machine path)
  unfolding ensure_token
  ensure_token-Keeps path =
      >>=-Keeps q c _ _ (exists-Keeps machine.paths machine.fault machine.reach path q c) λ there.
        if-Keeps there _ _ q c
          (>>=-Keeps q c _ _ (load_token_file-Keeps path) λ _. done-Keeps false q c)
          (>>=-Keeps q c _ _
            (write_private_file-Keeps machine.paths machine.fault machine.reach path _ q c)
            λ _. done-Keeps true q c)

  pub write_config-Keeps :
      (options : InitOptions) (text : String)
      → options.force ≡ false
      → Keeps q c (write_config machine options text)
  unfolding write_config
  write_config-Keeps options text fresh =
      rw (fresh, write_config)
        (write_private_file-Keeps machine.paths machine.fault machine.reach options.config_path
          (machine.as_bytes text) q c)

  pub initialize_server-Keeps :
      (options : InitOptions)
      → options.force ≡ false
      → Keeps q c (initialize_server machine options)
  unfolding initialize_server
  initialize_server-Keeps options fresh = >>=-Keeps q c _ _ (lift-Keeps _ q c) λ _.
      >>=-Keeps q c _ _ (lift-Keeps _ q c) λ command.
        >>=-Keeps q c _ _ (lift-Keeps _ q c) λ workspace_path.
          >>=-Keeps q c _ _ (symlink_metadata-Keeps options.config_path) λ found.
            >>=-Keeps q c _ _ (lift-Keeps _ q c) λ _.
              >>=-Keeps q c _ _ (ensure_token-Keeps options.token_path) λ token_created.
                >>=-Keeps q c _ _ (lift-Keeps _ q c) λ text.
                  >>=-Keeps q c _ _ (write_config-Keeps options text fresh)
                    λ _. >>=-Keeps q c _ _ (load-Keeps options.config_path) λ _. done-Keeps _ q c
