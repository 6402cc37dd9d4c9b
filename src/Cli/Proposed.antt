-- ===== src/Cli/Proposed.antt =====
-- The identifier that is proposed for a workspace is one that the configuration takes.
use Prim.Native.Char.{Char, code}
use Prim.Native.String.{[], ◌∷◌, ◌++◌}
use Prim.Native.String.append.{nil, cons}
use acp_tunnel.Common.{
  String, ◌≡◌, refl, ◌⊎◌, inl, inr, Bool, true, false, ◌&&◌, not, Option, none, some, ◌==◌,
  if◌then◌else◌, is_blank, any_char, arith, Bool-cases,
}
use acp_tunnel.Fault.{ok}
use acp_tunnel.Config.Names.{is_lower_or_digit, is_id_rest, is_id, validate_id}
use acp_tunnel.Cli.{
  is_upper, is_ascii_alphanumeric, push_character, collect, pop_separators, default_workspace_id,
}

-- Nothing yet, or an identifier.
abbrev Good : String → Type 0
Good id = (is_blank id ≡ true) ⊎ (is_id id ≡ true)

is_id_rest-append : (a b : String) → is_id_rest (a ++ b) ≡ (is_id_rest a && is_id_rest b)
unfolding is_id_rest
is_id_rest-append [] b = rw (nil b) refl
is_id_rest-append (c ∷ a) b = rw (cons c a b) (ground (arith, is_id_rest-append a b))

is_id-append : (a b : String) → is_id a ≡ true → is_id_rest b ≡ true → is_id (a ++ b) ≡ true
unfolding is_id
is_id-append [] b h k = cc
is_id-append (c ∷ a) b h k = rw (cons c a b) (ground (arith, is_id_rest-append a b, h, k))

-- A character that is pushed as it is.
lowered-is_id :
    (c : Char)
    → is_ascii_alphanumeric c ≡ true
    → is_upper (code c) ≡ false
    → is_lower_or_digit c ≡ true
unfolding is_ascii_alphanumeric
lowered-is_id c h k = ground (arith, h, k)

extended-is_id :
    (id more : String)
    → Good id
    → is_id_rest more ≡ true
    → is_id more ≡ true
    → is_id (id ++ more) ≡ true
unfolding is_blank
extended-is_id id more (inr h) r o = is_id-append id more h r
extended-is_id [] more (inl h) r o = rw (nil more) o
extended-is_id (c ∷ id) more (inl h) r o = cc

not_blank-is_id : (id : String) → Good id → is_blank id ≡ false → is_id id ≡ true
not_blank-is_id id (inl h) e = cc
not_blank-is_id id (inr h) e = h

push_character-Good :
    (id : String) (separator : Bool) (c : Char)
    → is_upper (code c) ≡ false
    → Good id
    → Good (push_character id separator c).0
unfolding push_character is_id is_id_rest
push_character-Good id separator c low g = elim (Bool-cases (is_ascii_alphanumeric c)) [
  | inl kept ↦
      let mine : is_lower_or_digit c ≡ true = lowered-is_id c kept low in
      rw (kept, push_character)
        (inr (extended-is_id id (c ∷ []) g (ground (arith, mine)) (ground (arith, mine))))
  | inr other ↦ elim (Bool-cases (not (is_blank id) && not separator)) [
    | inl dash ↦
        rw (other, dash, push_character)
          (inr (is_id-append id "-" (not_blank-is_id id g (ground (arith, dash))) refl))
    | inr skip ↦ rw (other, skip, push_character) g
  ]
]

collect-Good :
    (id : String) (separator : Bool) (name : String)
    → any_char is_upper name ≡ false
    → Good id
    → Good (collect id separator name)
unfolding collect any_char
collect-Good id separator [] low g = g
collect-Good id separator (c ∷ name) low g =
    let next = push_character id separator c in
    let first : is_upper (code c) ≡ false = ground (arith, low) in
    let others : any_char is_upper name ≡ false = ground (arith, low) in
    collect-Good next.0 next.1 name others (push_character-Good id separator c first g)

pop_separators-is_id_rest :
    (id : String) → is_id_rest id ≡ true → is_id_rest (pop_separators id) ≡ true
unfolding is_id_rest pop_separators
pop_separators-is_id_rest [] h = refl
pop_separators-is_id_rest (c ∷ id) h =
    let rest = pop_separators-is_id_rest id (ground (arith, h)) in
    elim (Bool-cases (code c == b'-' && is_blank (pop_separators id))) [
      | inl popped ↦ rw (popped, pop_separators) refl
      | inr kept ↦ rw (kept, pop_separators) (ground (arith, h, rest))
    ]

pop_separators-Good : (id : String) → Good id → Good (pop_separators id)
unfolding pop_separators is_id is_blank
pop_separators-Good [] g = inl refl
pop_separators-Good (c ∷ id) (inl h) = cc
pop_separators-Good (c ∷ id) (inr h) =
    let rest = pop_separators-is_id_rest id (ground (arith, h)) in
    elim (Bool-cases (code c == b'-' && is_blank (pop_separators id))) [
      | inl popped ↦ rw (popped, pop_separators) (inl refl)
      | inr kept ↦ rw (kept, pop_separators) (inr (ground (arith, h, rest)))
    ]

offered-made :
    (made id : String)
    → (if is_blank made then none else some made) ≡ some id
    → (is_blank made ≡ false) × (made ≡ id)
unfolding is_blank
offered-made [] id e = cc
offered-made (c ∷ made) id e = (refl, cc)

-- Where the lower case of a text has no capital ASCII letter, the workspace identifier that the
-- init command proposes for a directory, if it proposes one, is one that the validation of
-- identifiers accepts.
pub default_workspace_id-valid :
    (to_lowercase : String → String) (file_name : Option String) (id : String)
    → ((name : String) → any_char is_upper (to_lowercase name) ≡ false)
    → default_workspace_id to_lowercase file_name ≡ some id
    → validate_id "workspace" id ≡ ok tt
unfolding default_workspace_id validate_id is_blank
default_workspace_id-valid to_lowercase none id low e = cc
default_workspace_id-valid to_lowercase (some name) id low e =
    let made = pop_separators (collect "" false (to_lowercase name)) in
    let good : Good made =
      pop_separators-Good (collect "" false (to_lowercase name))
        (collect-Good "" false (to_lowercase name) (low name) (inl refl)) in
    let (filled, same) = offered-made made id e in
    let valid : is_id id ≡ true = rw (← same) (not_blank-is_id made good filled) in rw valid refl
