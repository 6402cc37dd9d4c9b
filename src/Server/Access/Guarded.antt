-- ===== src/Server/Access/Guarded.antt =====
-- Which requests get past the check.
use acp_tunnel.Common.{
  ℕ, String, ◌≡◌, refl, ap, sym, ◌∙◌, ==_iff, inl, inr, true, false, Option, none, some, List,
  contains, arith, Option-cases, Bool-cases, ◌==◌, split_once_space, contains_char, is_blank,
  any_char, equals_ignore_case,
}
use acp_tunnel.Auth.Compared.{authenticate_iff}
use acp_tunnel.Config.{ServerConfig}
use Prim.Native.Char.{code}
use Prim.Native.String.{◌++◌}
use Prim.Native.String.append
use package.text.Mathlib.TextEquality.{Char-path}
use acp_tunnel.Server.Access.{
  is_whitespace, parse_bearer, Header, absent, opaque, text, authorized, origin_allowed,
  enforce_upgrade_security,
}

-- The header is the scheme, in any case, a space and the expected token, which is not blank and has
-- no white space.
abbrev pub Bears : String → Header → Type 0
Bears expected (text header) =
    (scheme : String) × (header ≡ scheme ++ (" " ++ expected))
    × (contains_char 32 scheme ≡ false)
    × (equals_ignore_case scheme "bearer" ≡ true)
    × (is_blank expected ≡ false)
    × (any_char is_whitespace expected ≡ false)
Bears expected _ = ⊥

-- What stands before the first space, and after it.
split_once_space-eq-some :
    (header a b : String)
    → split_once_space header ≡ some (a, b)
    → (header ≡ a ++ (" " ++ b)) × (contains_char 32 a ≡ false)
unfolding split_once_space contains_char
split_once_space-eq-some String.[] a b e = cc
split_once_space-eq-some (String.◌∷◌ c s) a b e = elim (Bool-cases (code c == 32)) [
  | inl space ↦
      let same : ◌≡◌ {A = Option (String × String)} (some ("", s)) (some (a, b)) = rw space at e in
      let before : "" ≡ a = cc in
      let after : s ≡ b = cc in
      let it : c ≡ " " = Char-path c " " ((==_iff (code c) 32).0 space) in
      rw (← before, ← after)
        (
          ap (λ d. String.◌∷◌ d s) it
              ∙ (sym (ap (λ u. String.◌∷◌ " " u) (append.nil s))
                  ∙ (sym (append.cons " " "" s) ∙ sym (append.nil (" " ++ s)))),
          refl,
        )
  | inr other ↦ elim (Option-cases (split_once_space s)) [
    | inl nothing ↦ absurd (ground arith)
    | inr ((d, t), found) ↦
        let (joined, clean) = split_once_space-eq-some s d t found in
        let same : ◌≡◌ {A = Option (String × String)} (some (String.◌∷◌ c d, t)) (some (a, b)) =
          rw (other, found) at e in
        let before : String.◌∷◌ c d ≡ a = cc in
        let after : t ≡ b = cc in
        rw (← before, ← after)
          (ap (λ u. String.◌∷◌ c u) joined ∙ sym (append.cons c d (" " ++ t)), rw other clean)
  ]
]

parse_bearer-Bears :
    (header token : String) → parse_bearer header ≡ some token → Bears token (text header)
unfolding parse_bearer
parse_bearer-Bears header token e = elim (Option-cases (split_once_space header)) [
  | inl nothing ↦ absurd (ground arith)
  | inr ((scheme, credential), found) ↦
      let (joined, clean) = split_once_space-eq-some header scheme credential found in
      let same : credential ≡ token = ground arith in
      (scheme, rw same at joined, clean, ground arith, ground arith, ground arith)
]

abbrev pub FromAllowed : ServerConfig → Header → Type 0
FromAllowed config absent = Unit
FromAllowed config opaque = ⊥
FromAllowed config (text origin) = contains origin config.allowed_origins ≡ true

module _ (as_bytes : String → List ℕ)
    (as_bytes-injective : (a b : String) → as_bytes a ≡ as_bytes b → a ≡ b) (expected : String)
    (config : ServerConfig) where
  authorized-Bears : (h : Header) → authorized as_bytes expected h ≡ true → Bears expected h
  unfolding authorized
  authorized-Bears absent e = cc
  authorized-Bears opaque e = cc
  authorized-Bears (text header) e = elim (Option-cases (parse_bearer header)) [
    | inl nothing ↦ absurd (ground arith)
    | inr (token, found) ↦
        let same : token ≡ expected = as_bytes-injective token expected (
          (authenticate_iff (as_bytes expected) (as_bytes token)).0
            (rw (found, authorized) at e)) in
        rw same at (parse_bearer-Bears header token found)
  ]

  origin_allowed-FromAllowed : (h : Header) → origin_allowed config h ≡ true → FromAllowed config h
  unfolding origin_allowed
  origin_allowed-FromAllowed absent e = tt
  origin_allowed-FromAllowed opaque e = cc
  origin_allowed-FromAllowed (text origin) e = e

  -- Where different texts have different bytes, a request that passes the check has an
  -- authorization header that is the scheme bearer in any case, a space and the expected token,
  -- which is not blank and has no white space, and no origin or an allowed one.
  pub enforce_upgrade_security-Bears :
      (authorization origin : Header)
      → enforce_upgrade_security as_bytes expected config authorization origin ≡ none
      → Bears expected authorization × FromAllowed config origin
  unfolding enforce_upgrade_security
  enforce_upgrade_security-Bears authorization origin e = (
    authorized-Bears authorization (ground arith),
    origin_allowed-FromAllowed origin (ground arith),
  )
