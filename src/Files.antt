-- ===== src/Files.antt =====
-- The calls of std::fs that the program makes, on a file system whose every call may fail.
--
-- A path is a text, and what std::path makes of it is a record of functions. A symbolic link holds
-- the path where it leads in the end. `fault` gives the calls, by their number, that the operating
-- system refuses for a reason of its own (permissions, a full disk, a missing parent directory), and
-- `reach` how many bytes a refused writing has written all the same.
pub mod Frame
pub mod Gives
pub mod Rules
pub mod Moved
use acp_tunnel.Common.{
  ℕ, ◌+◌, String, ◌≡◌, refl, ◌⊎◌, inl, inr, Bool, true, false, Option, none, some, List, [], ◌∷◌,
  ◌++◌, take, Dict, get, insert, remove, is_some,
}
use acp_tunnel.Fault.{Error, config, Result, ok, err}

pub data Node : Type 0 where
  file : ℕ → List ℕ → Node
  directory : ℕ → Node
  link : String → Node

pub record PathLib : Type 0 where
  pub parent : String → Option String
  pub file_name : String → Option String
  pub join : String → String → String
  -- From the outermost directory to the path itself.
  pub ancestors : String → List String

pub record World : Type 0 where
  pub entries : Dict Node
  pub calls : ℕ

-- What a call of the operating system answers.
pub data Answer (A : Type 0) : Type 0 where
  answered : A → Answer A
  failed : String → Answer A

pub Answer-cases :
    {A : Type 0} (r : Answer A) → ((a : A) × (r ≡ answered a)) ⊎ ((e : String) × (r ≡ failed e))
Answer-cases (answered a) = inl (a, refl)
Answer-cases (failed e) = inr (e, refl)

abbrev pub or_config : {A : Type 0} → Answer A → (String → String) → Result A
or_config (answered a) message = ok a
or_config (failed error) message = err (config (message error))

-- What a call does to the entries: its answer, and the entries after it.
abbrev pub Act : Type 0 → Type 0
Act A = Dict Node → Answer A × Dict Node

-- Where a path leads.
abbrev pub landing : Dict Node → String → String
landing m path = elim (get path m) [ some (link target) ↦ target | _ ↦ path ]

-- The node that a path leads to.
abbrev pub node_at : Dict Node → String → Option Node
node_at m path = get (landing m path) m

-- `exists`
unfoldable pub exists_at : Dict Node → String → Bool
exists_at m path = is_some (node_at m path)

abbrev pub with_mode : ℕ → Node → Node
with_mode mode (file _ bytes) = file mode bytes
with_mode mode (directory _) = directory mode
with_mode mode (link target) = link target

unfoldable pub set_permissions : String → ℕ → Act (Unit {0})
set_permissions path mode m = elim (node_at m path) [
  | none ↦ (failed "not found", m)
  | some node ↦ (answered tt, insert (landing m path) (with_mode mode node) m)
]

-- `create_new` with a mode.
unfoldable pub create_new : String → ℕ → Act (Unit {0})
create_new path mode m = elim (get path m) [
  | none ↦ (answered tt, insert path (file mode []) m)
  | some _ ↦ (failed "already exists", m)
]

abbrev pub appended : List ℕ → Node → Node
appended bytes (file mode old) = file mode (old ++ bytes)
appended bytes other = other

abbrev pub append_at : String → List ℕ → Dict Node → Dict Node
append_at path bytes m = elim (get path m) [
  | none ↦ m
  | some node ↦ insert path (appended bytes node) m
]

unfoldable pub rename : String → String → Act (Unit {0})
rename from to m = elim (get from m) [
  | none ↦ (failed "not found", m)
  | some node ↦ (answered tt, insert to node (remove from m))
]

abbrev pub is_directory : Node → Bool
is_directory (directory _) = true
is_directory _ = false

unfoldable pub remove_file : String → Act (Unit {0})
remove_file path m = elim (get path m) [
  | none ↦ (failed "not found", m)
  | some (directory _) ↦ (failed "is a directory", m)
  | some _ ↦ (answered tt, remove path m)
]

-- `create_dir_all`: the directories on the way that are missing, with the usual mode.
unfoldable pub create_dirs : List String → Act (Unit {0})
create_dirs [] m = (answered tt, m)
create_dirs (path ∷ paths) m =
    let rest = create_dirs paths m in
    let made = create_dirs paths (insert path (directory 493) m) in
    elim (get path m) [
      | none ↦ made
      | some _ ↦ elim (node_at m path) [
        | some (directory _) ↦ rest
        | _ ↦ (failed "not a directory", m)
      ]
    ]

-- A computation that calls the operating system and may fail.
abbrev pub Fs : Type 0 → Type 0
Fs A = World → Result A × World

infixl 5 ◌>>=◌
unfoldable pub ◌>>=◌ : {A B : Type 0} → Fs A → (A → Fs B) → Fs B
◌>>=◌ first rest w = elim (first w).0 [ ok a ↦ rest a (first w).1 | err e ↦ (err e, (first w).1) ]

infixl 5 ◌>>◌
abbrev pub ◌>>◌ : {B : Type 0} → Fs (Unit {0}) → Fs B → Fs B
first >> rest = first >>= λ _. rest

unfoldable pub done : {A : Type 0} → A → Fs A
done a w = (ok a, w)

-- A result that asks nothing of the operating system.
unfoldable pub lift : {A : Type 0} → Result A → Fs A
lift r w = (r, w)

unfoldable pub required : {A : Type 0} → Option A → String → Fs A
unfolding lift done
required none message = lift (err (config message))
required (some a) message = done a

module _ (fault : ℕ → Option String) where
  -- One call of the operating system.
  unfoldable pub call : {A : Type 0} → Act A → World → Answer A × World
  call act w = elim (fault w.calls) [
    | some error ↦ (failed error, record w { calls = w.calls + 1 })
    | none ↦ ((act w.entries).0, record { entries = (act w.entries).1; calls = w.calls + 1 })
  ]

  -- `map_err` to a configuration error.
  unfoldable pub call_or : {A : Type 0} → Act A → (String → String) → Fs A
  unfolding call
  call_or act message w = (or_config (call act w).0 message, (call act w).1)

  -- `write_all` to a file just opened.
  unfoldable pub write_all : (ℕ → ℕ) → String → List ℕ → World → Answer (Unit {0}) × World
  write_all reach path bytes w = elim (fault w.calls) [
    | some error ↦ (
      failed error,
      record {
        entries = append_at path (take (reach w.calls) bytes) w.entries;
        calls = w.calls + 1;
      },
    )
    | none ↦ (answered tt, record { entries = append_at path bytes w.entries; calls = w.calls + 1 })
  ]
