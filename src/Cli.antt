-- ===== src/Cli.antt =====
-- src/main.rs: what the init command proposes and accepts. The lower case of a text is an argument, for
-- it follows the tables of Unicode; so is the splitting of a list at its commas.
pub mod Proposed
pub mod Init
use Prim.Native.Char.{Char, code}
use Prim.Native.String.{[], ◌∷◌, ◌++◌}
use acp_tunnel.Common.{
  ℕ, String, Bool, true, false, ◌||◌, ◌&&◌, not, Option, none, some, leb, ◌==◌, if◌then◌else◌,
  is_blank,
}
use acp_tunnel.Config.Names.{is_lower_or_digit}

abbrev pub is_upper : ℕ → Bool
is_upper n = leb b'A' n && leb n b'Z'

-- `is_ascii_alphanumeric`
unfoldable pub is_ascii_alphanumeric : Char → Bool
unfolding is_lower_or_digit
is_ascii_alphanumeric c = is_lower_or_digit c || is_upper (code c)

-- One round of the loop: the identifier, and whether a separator was the last to be pushed.
unfoldable pub push_character : String → Bool → Char → String × Bool
unfolding is_ascii_alphanumeric
push_character id separator c =
    if is_ascii_alphanumeric c
    then (id ++ (c ∷ []), false)
    else if not (is_blank id) && not separator
    then (id ++ "-", true)
    else (id, separator)

unfoldable pub collect : String → Bool → String → String
unfolding push_character
collect id separator [] = id
collect id separator (c ∷ name) =
    let next = push_character id separator c in collect next.0 next.1 name

-- The separators at the end are popped.
unfoldable pub pop_separators : String → String
pop_separators [] = []
pop_separators (c ∷ id) =
    let rest = pop_separators id in if code c == b'-' && is_blank rest then [] else c ∷ rest

-- The file name is that of the path, where it has one that is valid Unicode.
unfoldable pub default_workspace_id : (String → String) → Option String → Option String
unfolding collect pop_separators
default_workspace_id to_lowercase none = none
default_workspace_id to_lowercase (some name) =
    let id = pop_separators (collect "" false (to_lowercase name)) in
    if is_blank id then none else some id
