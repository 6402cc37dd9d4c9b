-- ===== src/Setup/Service/Quoted.antt =====
-- The service manager reads the executable's own path back out of the unit.
use Prim.Native.Char.{Char, code}
use Prim.Native.String.{[], ◌∷◌, ◌++◌}
use Prim.Native.String.append.{nil, cons}
use package.text.Mathlib.TextEquality.{Char-path}
use acp_tunnel.Common.{
  String, ◌≡◌, refl, sym, inl, inr, Bool, true, false, ◌||◌, Option, none, some, ◌==◌,
  if◌then◌else◌, is_blank, arith, Bool-cases, Option-cases,
}
use acp_tunnel.Fault.{ok, >>=-eq-ok, ok-injective}
use acp_tunnel.Files.{Answer, answered, or_config}
use acp_tunnel.Files.Frame.{or_config-eq-ok}
use acp_tunnel.Setup.Service.{
  replace_char, escape_systemd_argument, generate_user_service, unit_head, unit_tail,
}

abbrev in_front : Char → Option String → Option String
in_front c none = none
in_front c (some s) = some (c ∷ s)

-- The rest of a quoted argument, up to the quotation mark that ends it; the flag says whether a
-- backslash stands before it, after which a backslash or a quotation mark is meant itself.
unfoldable pub unquote : Bool → String → Option String
unquote flag [] = none
unquote false (c ∷ s) =
    let plain = in_front c (unquote false s) in
    let quoted = unquote true s in
    if code c == b'"'
    then if is_blank s then some "" else none
    else if code c == b'\\'
    then quoted
    else plain
unquote true (c ∷ s) =
    let meant = in_front c (unquote false s) in
    if code c == b'\\' || code c == b'"' then meant else none

-- The specifiers: `%%` stands for `%`, and no other stands in an argument that is read back. The
-- flag says whether one `%` stands before.
unfoldable pub expand : Bool → String → Option String
expand false [] = some ""
expand true [] = none
expand false (c ∷ s) =
    let plain = in_front c (expand false s) in
    let percent = expand true s in if code c == b'%' then percent else plain
expand true (c ∷ s) =
    let meant = in_front c (expand false s) in if code c == b'%' then meant else none

-- What the manager makes of a quoted argument.
abbrev pub read_argument : String → Option String
read_argument [] = none
read_argument (c ∷ s) =
    if code c == b'"'
    then elim (unquote false s) [ none ↦ none | some text ↦ expand false text ]
    else none

abbrev percents : String → String
percents = replace_char b'%' "%%"

abbrev slashes : String → String
slashes text = replace_char b'"' "\\\"" (replace_char b'\\' "\\\\" text)

two : (a b : Char) (x : String) → (a ∷ b ∷ []) ++ x ≡ a ∷ b ∷ x
two a b x = rw (cons a (b ∷ []) x, cons b [] x, nil x) refl

expand-percents : (t : String) → expand false (percents t) ≡ some t
unfolding expand replace_char
expand-percents [] = refl
expand-percents (c ∷ s) = elim (Bool-cases (code c == b'%')) [
  | inl percent ↦
      let same : c ≡ "%" = Char-path c "%" (ground arith) in
      rw (same, two "%" "%" (percents s), expand-percents s) refl
  | inr other ↦ rw (other, other, expand-percents s) refl
]

unquote-slashes : (t : String) → unquote false (percents (slashes t) ++ "\"") ≡ some (percents t)
unfolding unquote replace_char is_blank
unquote-slashes [] = refl
unquote-slashes (c ∷ s) = elim (Bool-cases (code c == b'\\')) [
  | inl slash ↦
      let same : c ≡ "\\" = Char-path c "\\" (ground arith) in
      let inner = replace_char b'\\' "\\\\" s in
      let rest = percents (slashes s) in
      rw
        (
          same,
          two "\\" "\\" inner,
          cons "\\" ("\\" ∷ rest) "\"",
          cons "\\" rest "\"",
          unquote-slashes s,
        )
        refl
  | inr no_slash ↦ elim (Bool-cases (code c == b'"')) [
    | inl mark ↦
        let same : c ≡ "\"" = Char-path c "\"" (ground arith) in
        let inner = replace_char b'"' "\\\"" (replace_char b'\\' "\\\\" s) in
        let rest = percents (slashes s) in
        rw
          (
            same,
            two "\\" "\"" inner,
            cons "\\" ("\"" ∷ rest) "\"",
            cons "\"" rest "\"",
            unquote-slashes s,
          )
          refl
    | inr no_mark ↦ elim (Bool-cases (code c == b'%')) [
      | inl percent ↦
          let same : c ≡ "%" = Char-path c "%" (ground arith) in
          let rest = percents (slashes s) in
          rw
            (
              same,
              two "%" "%" rest,
              two "%" "%" (percents s),
              cons "%" ("%" ∷ rest) "\"",
              cons "%" rest "\"",
              unquote-slashes s,
            )
            refl
      | inr plain ↦
          let rest = percents (slashes s) in
          let kept : percents (slashes (c ∷ s)) ≡ c ∷ rest = rw (no_slash, no_mark, plain) refl in
          rw (kept, cons c rest "\"", no_mark, no_slash, plain, unquote-slashes s) refl
    ]
  ]
]

-- The argument that is written for a path is read as that path.
read_argument-escape :
    (text argument : String)
    → escape_systemd_argument (some text) ≡ ok argument
    → read_argument argument ≡ some text
unfolding escape_systemd_argument
read_argument-escape text argument e =
    let body = percents (slashes text) ++ "\"" in
    let shape : argument ≡ "\"" ++ body = ground arith in
    rw (shape, cons "\"" "" body, nil body, unquote-slashes text, expand-percents text) refl

-- A unit that is generated stands around one quoted argument, from which the service manager's
-- rules for quotes, backslashes and specifiers read the text of the resolved executable path.
pub generate_user_service-reads :
    {FilePath : Type 0} (to_str : FilePath → Option String)
    (canonicalize : FilePath → Answer FilePath) (display : FilePath → String)
    (executable : FilePath) (unit : String)
    → generate_user_service to_str canonicalize display executable ≡ ok unit
    → (canonical : FilePath) × (argument text : String) × (canonicalize executable
        ≡ answered canonical)
      × (to_str canonical ≡ some text)
      × (unit ≡ unit_head ++ (argument ++ unit_tail))
      × (read_argument argument ≡ some text)
unfolding generate_user_service
generate_user_service-reads to_str canonicalize display executable unit e =
    let (canonical, c, e1) = >>=-eq-ok (or_config (canonicalize executable) _) _ e in
    let (argument, a, e2) = >>=-eq-ok (escape_systemd_argument (to_str canonical)) _ e1 in
    elim (Option-cases (to_str canonical)) [
      | inl missing ↦ ground arith
      | inr (text, there) ↦ (
        canonical,
        argument,
        text,
        or_config-eq-ok (canonicalize executable) _ canonical c,
        there,
        sym (ok-injective _ _ e2),
        read_argument-escape text argument (rw there at a),
      )
    ]
