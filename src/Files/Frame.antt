-- ===== src/Files/Frame.antt =====
-- What the calls leave alone: the contents of the files that they are not about.
use acp_tunnel.Common.{
  ℕ, String, ◌≡◌, ◌≢◌, refl, sym, ap, ◌∙◌, inl, inr, ◌⊎◌, Option, none, some, List, [], ◌∷◌, Dict,
  get, insert, remove, get-insert, get-remove, Option-cases, Bool-cases, str_eq, eq_iff, eq_refl,
  arith,
}
use acp_tunnel.Fault.{ok, Result-cases}
use acp_tunnel.Files.{
  Node, file, directory, link, World, Answer, answered, failed, Act, Fs, ◌>>=◌, landing, node_at,
  with_mode, set_permissions, create_new, appended, append_at, rename, remove_file, create_dirs,
  call, write_all, call_or, or_config,
}

-- A file stands at the path with these contents, whatever its mode.
abbrev pub Stands : Dict Node → String → List ℕ → Type 0
Stands m path bytes = (mode : ℕ) × (get path m ≡ some (file mode bytes))

pub get-insert_self : (k : String) (n : Node) (m : Dict Node) → get k (insert k n m) ≡ some n
get-insert_self k n m = rw (get-insert k k n m, eq_refl k) refl

pub get-insert_other :
    (j k : String) (n : Node) (m : Dict Node) → k ≢ j → get j (insert k n m) ≡ get j m
get-insert_other j k n m h = ground (arith, get-insert j k n m, eq_iff k j, h)

pub get-remove_self : (k : String) (m : Dict Node) → get k (remove k m) ≡ none
get-remove_self k m = rw (get-remove k k m, eq_refl k) refl

pub get-remove_other : (j k : String) (m : Dict Node) → k ≢ j → get j (remove k m) ≡ get j m
get-remove_other j k m h = ground (arith, get-remove j k m, eq_iff k j, h)

-- Writing a node over a file elsewhere, or the same contents over it, keeps it.
insert-Stands :
    (m : Dict Node) (q k : String) (c : List ℕ) (n : Node)
    → Stands m q c
    → (k ≡ q → (mode : ℕ) × (n ≡ file mode c))
    → Stands (insert k n m) q c
insert-Stands m q k c n (mode, h) over = elim (Bool-cases (str_eq k q)) [
  | inl same ↦
      let (mode', e) = over ((eq_iff k q).0 same) in (mode', rw (get-insert q k n m, same, e) refl)
  | inr other ↦ (mode, rw (get-insert q k n m, other) h)
]

Stands-node :
    (m : Dict Node) (q k : String) (c : List ℕ) (h : Stands m q c) (node : Node)
    → get k m ≡ some node
    → k ≡ q
    → node ≡ file h.0 c
Stands-node m q k c (mode, h) node found e = let there : get k m ≡ some (file mode c) = rw e h in cc

not_missing :
    (m : Dict Node) (q k : String) (c : List ℕ) → Stands m q c → get k m ≡ none → k ≡ q → ⊥
not_missing m q k c (mode, h) missing e = let there : get k m ≡ some (file mode c) = rw e h in cc

pub set_permissions-Stands :
    (path : String) (mode : ℕ) (m : Dict Node) (q : String) (c : List ℕ)
    → Stands m q c
    → Stands (set_permissions path mode m).1 q c
unfolding set_permissions
set_permissions-Stands path mode m q c h = elim (Option-cases (node_at m path)) [
  | inl missing ↦ rw (missing, set_permissions) h
  | inr (node, found) ↦
      rw (found, set_permissions)
        (insert-Stands m q (landing m path) c (with_mode mode node) h
          (λ e. (mode, ap (with_mode mode) (Stands-node m q (landing m path) c h node found e))))
]

pub create_dirs-Stands :
    (paths : List String) (m : Dict Node) (q : String) (c : List ℕ)
    → Stands m q c
    → Stands (create_dirs paths m).1 q c
unfolding create_dirs
create_dirs-Stands [] m q c h = h
create_dirs-Stands (path ∷ paths) m q c h = elim (Option-cases (get path m)) [
  | inl missing ↦
      rw (missing, create_dirs)
        (create_dirs-Stands paths (insert path (directory 493) m) q c (
          insert-Stands m q path c (directory 493) h
            (λ e. absurd (not_missing m q path c h missing e))))
  | inr (node, found) ↦ elim (Option-cases (node_at m path)) [
    | inl dangling ↦ rw (found, dangling, create_dirs) h
    | inr (directory mode, there) ↦
        rw (found, there, create_dirs) (create_dirs-Stands paths m q c h)
    | inr (file mode bytes, there) ↦ rw (found, there, create_dirs) h
    | inr (link target, there) ↦ rw (found, there, create_dirs) h
  ]
]

pub create_new-Stands :
    (path : String) (mode : ℕ) (m : Dict Node) (q : String) (c : List ℕ)
    → Stands m q c
    → Stands (create_new path mode m).1 q c
unfolding create_new
create_new-Stands path mode m q c h = elim (Option-cases (get path m)) [
  | inl missing ↦
      rw (missing, create_new)
        (insert-Stands m q path c (file mode []) h
          (λ e. absurd (not_missing m q path c h missing e)))
  | inr (node, found) ↦ rw (found, create_new) h
]

pub append_at-Stands :
    (path : String) (bytes : List ℕ) (m : Dict Node) (q : String) (c : List ℕ)
    → path ≢ q
    → Stands m q c
    → Stands (append_at path bytes m) q c
append_at-Stands path bytes m q c ne h = elim (Option-cases (get path m)) [
  | inl missing ↦ rw (missing, append_at) h
  | inr (node, found) ↦
      rw (found, append_at) (insert-Stands m q path c (appended bytes node) h (λ e. absurd (ne e)))
]

pub rename-Stands :
    (from to : String) (m : Dict Node) (q : String) (c : List ℕ)
    → from ≢ q
    → to ≢ q
    → Stands m q c
    → Stands (rename from to m).1 q c
unfolding rename
rename-Stands from to m q c f t (mode, h) = elim (Option-cases (get from m)) [
  | inl missing ↦ rw (missing, rename) (mode, h)
  | inr (node, found) ↦
      rw (found, rename)
        (mode, get-insert_other q to node (remove from m) t ∙ get-remove_other q from m f ∙ h)
]

pub remove_file-other :
    (path : String) (m : Dict Node) (q : String) → path ≢ q → get q (remove_file path m).1 ≡ get q m
unfolding remove_file
remove_file-other path m q ne = elim (Option-cases (get path m)) [
  | inl missing ↦ rw (missing, remove_file) refl
  | inr (directory _, found) ↦ rw (found, remove_file) refl
  | inr (file _ _, found) ↦ rw (found, remove_file) (get-remove_other q path m ne)
  | inr (link _, found) ↦ rw (found, remove_file) (get-remove_other q path m ne)
]

pub remove_file-Stands :
    (path : String) (m : Dict Node) (q : String) (c : List ℕ)
    → path ≢ q
    → Stands m q c
    → Stands (remove_file path m).1 q c
remove_file-Stands path m q c ne (mode, h) = (mode, remove_file-other path m q ne ∙ h)

-- A computation that loses no contents of the file at a path.
pub record Keeps {A : Type 0} (q : String) (c : List ℕ) (f : Fs A) : Type 0 where
  pub keeps : (w : World) → Stands w.entries q c → Stands (f w).1.entries q c

pub >>=-Keeps :
    {A B : Type 0} (q : String) (c : List ℕ) (first : Fs A) (rest : A → Fs B)
    → Keeps q c first
    → ((a : A) → Keeps q c (rest a))
    → Keeps q c (first >>= rest)
unfolding ◌>>=◌
>>=-Keeps q c first rest k l = record {
  keeps = λ w h. elim (Result-cases (first w).0) [
    | inl (a, e) ↦ rw (e, ◌>>=◌) ((l a).keeps (first w).1 (k.keeps w h))
    | inr (m, e) ↦ rw (e, ◌>>=◌) (k.keeps w h)
  ];
}

pub or_config-eq-ok :
    {A : Type 0} (answer : Answer A) (message : String → String) (a : A)
    → or_config answer message ≡ ok a
    → answer ≡ answered a
or_config-eq-ok (answered b) message a e = cc
or_config-eq-ok (failed error) message a e = cc

module _ (fault : ℕ → Option String) where
  pub call-cases :
      {A : Type 0} (act : Act A) (w : World)
      → ((e : String) × ((call fault act w).0 ≡ failed e)
          × ((call fault act w).1.entries ≡ w.entries))
        ⊎ (((call fault act w).0 ≡ (act w.entries).0)
            × ((call fault act w).1.entries ≡ (act w.entries).1))
  unfolding call
  call-cases act w = elim (Option-cases (fault w.calls)) [
    | inr (e, f) ↦ inl (e, rw (f, call) refl, rw (f, call) refl)
    | inl f ↦ inr (rw (f, call) refl, rw (f, call) refl)
  ]

  pub call-get :
      {A : Type 0} (act : Act A) (q : String) (w : World)
      → ((m : Dict Node) → get q (act m).1 ≡ get q m)
      → get q (call fault act w).1.entries ≡ get q w.entries
  call-get act q w same = elim (call-cases act w) [
    | inl (e, _, kept) ↦ ap (get q) kept
    | inr (_, after) ↦ ap (get q) after ∙ same w.entries
  ]

  pub call-Stands :
      {A : Type 0} (act : Act A) (q : String) (c : List ℕ) (w : World)
      → ((m : Dict Node) → Stands m q c → Stands (act m).1 q c)
      → Stands w.entries q c
      → Stands (call fault act w).1.entries q c
  call-Stands act q c w k h = elim (call-cases act w) [
    | inl (e, _, same) ↦ rw same h
    | inr (_, after) ↦ rw after (k w.entries h)
  ]

  pub write_all-Stands :
      (reach : ℕ → ℕ) (path : String) (bytes : List ℕ) (q : String) (c : List ℕ) (w : World)
      → path ≢ q
      → Stands w.entries q c
      → Stands (write_all fault reach path bytes w).1.entries q c
  unfolding write_all
  write_all-Stands reach path bytes q c w ne h = elim (Option-cases (fault w.calls)) [
    | inr (e, f) ↦ rw (f, write_all) (append_at-Stands path _ w.entries q c ne h)
    | inl f ↦ rw (f, write_all) (append_at-Stands path bytes w.entries q c ne h)
  ]

  pub call_or-Keeps :
      {A : Type 0} (act : Act A) (message : String → String) (q : String) (c : List ℕ)
      → ((m : Dict Node) → Stands m q c → Stands (act m).1 q c)
      → Keeps q c (call_or fault act message)
  unfolding call_or
  call_or-Keeps act message q c k = record { keeps = λ w h. call-Stands act q c w k h }

  pub call_or-eq-ok :
      {A : Type 0} (act : Act A) (message : String → String) (w : World) (a : A)
      → (call_or fault act message w).0 ≡ ok a
      → ((act w.entries).0 ≡ answered a)
        × ((call_or fault act message w).1.entries ≡ (act w.entries).1)
  unfolding call_or
  call_or-eq-ok act message w a e = elim (call-cases act w) [
    | inl (m, refused, _) ↦
        let stopped : or_config (failed m) message ≡ ok a =
          sym (ap (λ r. or_config r message) refused) ∙ e in
        cc
    | inr (same, after) ↦
        let told : or_config (act w.entries).0 message ≡ ok a =
          sym (ap (λ r. or_config r message) same) ∙ e in
        (or_config-eq-ok (act w.entries).0 message a told, after)
  ]
