-- ===== src/Credentials/Lines.antt =====
-- Which texts hold a token: the check of a token's text.
use Prim.Native.Char.{Char, code}
use Prim.Native.String.{[], ◌∷◌, ◌++◌}
use Prim.Native.String.append.{nil, cons}
use package.text.Mathlib.TextLemmas.{append-nil}
use package.text.Mathlib.TextEquality.{Char-path}
use acp_tunnel.Common.{
  String, ◌≡◌, refl, sym, ap, ◌∙◌, inl, inr, ◌⊎◌, ◌↔◌, true, false, Option, none, some, ◌==◌,
  is_blank, contains_char, same_text, strip_suffix, arith, Bool-cases, Option-cases,
}
use acp_tunnel.Fault.{ok, >>-eq-ok, fail_if, fail_if-eq-ok}
use acp_tunnel.Credentials.{new_token, without_line_end, has_newline, validate_token_text}

-- A token, with at most one end of a line after it.
abbrev pub LineOf : String → String → Type 0
LineOf token text = (text ≡ token) ⊎ ((text ≡ token ++ "\n") ⊎ (text ≡ token ++ "\r\n"))

same_text-eq : (s t : String) → same_text s t ≡ true → s ≡ t
unfolding same_text
same_text-eq [] [] h = refl
same_text-eq [] (d ∷ t) h = cc
same_text-eq (c ∷ s) [] h = cc
same_text-eq (c ∷ s) (d ∷ t) h =
    let heads : code c ≡ code d = ground arith in
    let rest : s ≡ t = same_text-eq s t (ground arith) in
    let first : c ≡ d = Char-path c d heads in cc

strip_suffix-append : (e s start : String) → strip_suffix e s ≡ some start → s ≡ start ++ e
unfolding strip_suffix
strip_suffix-append e [] start h = elim (Bool-cases (same_text e [])) [
  | inl same ↦
      let whole : e ≡ [] = same_text-eq e [] same in
      let all : "" ≡ start = ground arith in rw (sym all, whole) (sym (nil []))
  | inr other ↦ ground arith
]
strip_suffix-append e (c ∷ s) start h = elim (Bool-cases (same_text e (c ∷ s))) [
  | inl same ↦
      let whole : e ≡ c ∷ s = same_text-eq e (c ∷ s) same in
      let all : "" ≡ start = ground arith in rw (sym all, whole) (sym (nil (c ∷ s)))
  | inr other ↦ elim (Option-cases (strip_suffix e s)) [
    | inl missing ↦ ground (arith, missing)
    | inr (rest, found) ↦
        let all : c ∷ rest ≡ start = ground (arith, found) in
        let tail : s ≡ rest ++ e = strip_suffix-append e s rest found in
        let step : (c ∷ rest) ++ e ≡ c ∷ (rest ++ e) = cons c rest e in
        rw (sym all, step, tail) refl
  ]
]

-- In front of a text, characters that a suffix does not begin with are kept.
abbrev in_front : String → Option String → Option String
in_front s none = none
in_front s (some start) = some (s ++ start)

strip_suffix-front :
    (c : Char) (e s t : String)
    → contains_char (code c) s ≡ false
    → strip_suffix (c ∷ e) (s ++ t) ≡ in_front s (strip_suffix (c ∷ e) t)
unfolding strip_suffix contains_char same_text
strip_suffix-front c e [] t h =
    rw (nil t) (elim (strip_suffix (c ∷ e) t) as (λ found. found ≡ in_front "" found) [
      | none ↦ refl
      | some start ↦ ap some (sym (nil start))
    ])
strip_suffix-front c e (d ∷ s) t h =
    let other : (code c == code d) ≡ false = ground arith in
    let rest : strip_suffix (c ∷ e) (s ++ t) ≡ in_front s (strip_suffix (c ∷ e) t) =
      strip_suffix-front c e s t (ground arith) in
    rw (cons d s t, other, rest)
      (elim (strip_suffix (c ∷ e) t)
        as (λ found.
          elim (in_front s found) [ none ↦ none | some start ↦ some (d ∷ start) ]
          ≡ in_front (d ∷ s) found) [ none ↦ refl | some start ↦ ap some (sym (cons d s start)) ])

-- The two ends of a line, looked for after a text that holds neither of their characters.
crlf_suffix :
    (token tail : String)
    → has_newline token ≡ false
    → strip_suffix "\r\n" (token ++ tail) ≡ in_front token (strip_suffix "\r\n" tail)
unfolding has_newline
crlf_suffix token tail h = strip_suffix-front "\r" "\n" token tail (ground arith)

lf_suffix :
    (token tail : String)
    → has_newline token ≡ false
    → strip_suffix "\n" (token ++ tail) ≡ in_front token (strip_suffix "\n" tail)
unfolding has_newline
lf_suffix token tail h = strip_suffix-front "\n" "" token tail (ground arith)

-- A text that is a token with an end of a line loses just that.
without_line_end-line :
    (token text : String)
    → LineOf token text
    → has_newline token ≡ false
    → without_line_end text ≡ token
unfolding without_line_end strip_suffix same_text
without_line_end-line token text (inl bare) h =
    let whole : text ≡ token ++ "" = bare ∙ sym (append-nil token) in
    let no_crlf : strip_suffix "\r\n" text ≡ none = rw whole (crlf_suffix token "" h) in
    let no_lf : strip_suffix "\n" text ≡ none = rw whole (lf_suffix token "" h) in
    rw (without_line_end, no_crlf, no_lf) bare
without_line_end-line token text (inr (inl lf)) h =
    let no_crlf : strip_suffix "\r\n" text ≡ none = rw lf (crlf_suffix token "\n" h) in
    let found : strip_suffix "\n" text ≡ some (token ++ "") = rw lf (lf_suffix token "\n" h) in
    rw (without_line_end, no_crlf, found) (append-nil token)
without_line_end-line token text (inr (inr crlf)) h =
    rw (crlf, without_line_end, crlf_suffix token "\r\n" h) (append-nil token)

without_line_end-LineOf : (text : String) → LineOf (without_line_end text) text
unfolding without_line_end
without_line_end-LineOf text = elim (Option-cases (strip_suffix "\r\n" text)) [
  | inr (start, found) ↦
      rw (without_line_end, found) (inr (inr (strip_suffix-append "\r\n" text start found)))
  | inl missing ↦ elim (Option-cases (strip_suffix "\n" text)) [
    | inr (start, found) ↦
        rw (without_line_end, missing, found)
          (inr (inl (strip_suffix-append "\n" text start found)))
    | inl none_at_all ↦ rw (without_line_end, missing, none_at_all) (inl refl)
  ]
]

-- A text is accepted as a token exactly if it is the token with at most one end of a line after it,
-- and the token is not empty and has no character of a line's end.
pub validate_token_text_iff :
    (text token : String)
    → (validate_token_text text ≡ ok token)
      ↔ (LineOf token text × (is_blank token ≡ false) × (has_newline token ≡ false))
unfolding validate_token_text new_token
validate_token_text_iff text token = (accepted, taken)
  where
    accepted :
        validate_token_text text ≡ ok token
        → LineOf token text × (is_blank token ≡ false) × (has_newline token ≡ false)
    accepted e =
        let (one_line, made) = >>-eq-ok (fail_if (has_newline (without_line_end text)) _) _ e in
        let clean : has_newline (without_line_end text) ≡ false = fail_if-eq-ok _ _ one_line in
        elim (Bool-cases (is_blank (without_line_end text))) [
          | inl blank ↦ ground (arith, made)
          | inr solid ↦
              let same : without_line_end text ≡ token = ground (arith, made) in
              rw⁻¹ same (without_line_end-LineOf text, solid, clean)
        ]

    taken :
        LineOf token text × (is_blank token ≡ false) × (has_newline token ≡ false)
        → validate_token_text text ≡ ok token
    taken (line, solid, clean) = rw (without_line_end-line token text line clean, clean, solid) refl
