-- ===== src/Common/Maps.antt =====
-- The maps and sets keyed by text that the program holds (`BTreeMap`, `HashMap`, `BTreeSet`), as
-- association lists in the order of the keys. Only `get`, `contains` and the iteration order show.
use Prim.Native.String.{String, compare}
use Prim.Native.Nat.{Ordering}
use mathlib.Core.Path.{◌≡◌, refl}
use mathlib.Core.Logic.{◌≢◌}
use mathlib.Core.Bool.{Bool, true, false, ◌||◌}
use mathlib.Core.Option.{Option, none, some}
use mathlib.Core.List.{List, [], ◌∷◌}
use native.Mathlib.Omega.{arith}
use text.Mathlib.Text.{◌==◌}
use text.Mathlib.TextEquality.{eq_iff}
use acp_tunnel.Common.Tests.{if◌then◌else◌, is_some}

abbrev pub str_ltb : String → String → Bool
str_ltb a b = elim (compare a b) [ Ordering.lt ↦ true | _ ↦ false ]

pub different : (a b : String) → (a == b) ≡ false → a ≢ b
different a b e p = ground (arith, (eq_iff a b).1 p)

abbrev pub Dict {ℓ} : Type ℓ → Type ℓ
Dict V = List (String × V)

module _ {ℓ} {V : Type ℓ} where
  unfoldable pub get : String → Dict V → Option V
  get k [] = none
  get k ((j, v) ∷ m) = if j == k then some v else get k m

  unfoldable pub insert : String → V → Dict V → Dict V
  insert k v [] = (k, v) ∷ []
  insert k v ((j, w) ∷ m) =
      if j == k
      then (k, v) ∷ m
      else if str_ltb k j
      then (k, v) ∷ (j, w) ∷ m
      else (j, w) ∷ insert k v m

  unfoldable pub remove : String → Dict V → Dict V
  remove k [] = []
  remove k ((j, v) ∷ m) = if j == k then remove k m else (j, v) ∷ remove k m

  abbrev pub contains_key : String → Dict V → Bool
  contains_key k m = is_some (get k m)

  -- `entry(k).or_insert(v)`: a value that is there stays.
  unfoldable pub or_insert : String → V → Dict V → Dict V
  or_insert k v m = if contains_key k m then m else insert k v m

  pub get-insert :
      (j k : String) (v : V) (m : Dict V)
      → get j (insert k v m) ≡ (if k == j then some v else get j m)
  unfolding get insert
  get-insert j k v [] = refl
  get-insert j k v ((i, w) ∷ m) =
      ground (arith, eq_iff k j, eq_iff i k, eq_iff i j, get-insert j k v m)

  pub get-remove :
      (j k : String) (m : Dict V) → get j (remove k m) ≡ (if k == j then none else get j m)
  unfolding get remove
  get-remove j k [] = ground arith
  get-remove j k ((i, w) ∷ m) = ground (arith, eq_iff k j, eq_iff i k, eq_iff i j, get-remove j k m)

  pub get-or_insert :
      (j k : String) (v : V) (m : Dict V)
      → get j (or_insert k v m)
        ≡ (if contains_key j m then get j m else if k == j then some v else none)
  unfolding or_insert
  get-or_insert j k v m = ground (arith, get-insert j k v m, eq_iff k j)

-- A set of texts is a list of its members.
unfoldable pub contains : String → List String → Bool
contains k [] = false
contains k (j ∷ s) = (j == k) || contains k s
