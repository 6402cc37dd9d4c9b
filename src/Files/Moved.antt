-- ===== src/Files/Moved.antt =====
-- What a file that is moved or removed leaves behind.
use acp_tunnel.Common.{
  ℕ, String, ◌≡◌, ◌≢◌, refl, ◌∙◌, inl, inr, ◌⊎◌, Option, none, some, List, Dict, get, insert,
  remove,
}
use acp_tunnel.Files.{Node, file, World, answered, failed, rename, remove_file, call}
use acp_tunnel.Files.Frame.{call-cases, get-insert_other, get-remove_self, get-remove_other}

-- A file moves to another name.
pub rename-moves :
    (from to : String) (m : Dict Node) (node : Node)
    → get from m ≡ some node
    → ((rename from to m).0 ≡ answered tt) × ((rename from to m).1 ≡ insert to node (remove from m))
unfolding rename
rename-moves from to m node e = (rw (e, rename) refl, rw (e, rename) refl)

pub remove_file-removes :
    (path : String) (mode : ℕ) (bytes : List ℕ) (m : Dict Node)
    → get path m ≡ some (file mode bytes)
    → ((remove_file path m).0 ≡ answered tt) × ((remove_file path m).1 ≡ remove path m)
unfolding remove_file
remove_file-removes path mode bytes m e = (rw (e, remove_file) refl, rw (e, remove_file) refl)

-- The name is empty before a file moves to it, and the file's own name after that.
pub moved-gone :
    (from to : String) (m : Dict Node) (node : Node)
    → to ≢ from
    → get from (insert to node (remove from m)) ≡ none
moved-gone from to m node ne =
    get-insert_other from to node (remove from m) ne ∙ get-remove_self from m

pub moved-other :
    (from to q : String) (m : Dict Node) (node : Node)
    → from ≢ q
    → to ≢ q
    → get q (insert to node (remove from m)) ≡ get q m
moved-other from to q m node f t =
    get-insert_other q to node (remove from m) t ∙ get-remove_other q from m f

module _ (fault : ℕ → Option String) where
  -- A move that is not refused takes the file to its new name.
  pub move-cases :
      (from to : String) (w : World) (node : Node)
      → get from w.entries ≡ some node
      → ((e : String) × ((call fault (rename from to) w).0 ≡ failed e)
          × ((call fault (rename from to) w).1.entries ≡ w.entries))
        ⊎ (((call fault (rename from to) w).0 ≡ answered tt)
            × ((call fault (rename from to) w).1.entries ≡ insert to node (remove from w.entries)))
  move-cases from to w node e = elim (call-cases fault (rename from to) w) [
    | inl refused ↦ inl refused
    | inr (told, after) ↦
        let (yes_told, moved) = rename-moves from to w.entries node e in
        inr (told ∙ yes_told, after ∙ moved)
  ]
