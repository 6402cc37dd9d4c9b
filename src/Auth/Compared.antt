-- ===== src/Auth/Compared.antt =====
-- The comparison accepts the expected token and no other, though it never stops early.
use acp_tunnel.Common.{
  ℕ, zero, suc, ◌+◌, ◌≤◌, ◌<◌, max, ◌≡◌, ◌↔◌, refl, inl, inr, true, Bool-cases, List, [], ◌∷◌,
  length, ◌==◌, bit_xor, bit_or-zero, bit_xor-zero, bit_xor-same, arith, subst,
}
use acp_tunnel.Auth.{byte_at, accumulate, authenticate}

accumulate-start : (s e : List ℕ) (i n d : ℕ) → accumulate s e i n d ≡ 0 → d ≡ 0
unfolding accumulate
accumulate-start s e i zero d h = h
accumulate-start s e i (suc n) d h =
    (bit_or-zero d (bit_xor (byte_at s i) (byte_at e i)) (accumulate-start s e (i + 1) n _ h)).0

accumulate-bytes :
    (s e : List ℕ) (i n d j : ℕ)
    → accumulate s e i n d ≡ 0
    → i ≤ j
    → j < i + n
    → byte_at s j ≡ byte_at e j
unfolding accumulate
accumulate-bytes s e i zero d j h l u = absurd (omega arith)
accumulate-bytes s e i (suc n) d j h l u = elim (Bool-cases (i == j)) [
  | inl here ↦
      let same : i ≡ j = ground arith in
      subst (λ k. byte_at s k ≡ byte_at e k) same
        (bit_xor-zero (byte_at s i) (byte_at e i) (
          (bit_or-zero d (bit_xor (byte_at s i) (byte_at e i))
            (accumulate-start s e (i + 1) n _ h)).1))
  | inr later ↦ accumulate-bytes s e (i + 1) n _ j h (ground arith) (omega arith)
]

accumulate-same : (s : List ℕ) (i n : ℕ) → accumulate s s i n 0 ≡ 0
unfolding accumulate
accumulate-same s i zero = refl
accumulate-same s i (suc n) = rw (bit_xor-same (byte_at s i)) (accumulate-same s (i + 1) n)

bytes-eq :
    (s e : List ℕ)
    → length s ≡ length e
    → ((j : ℕ) → j < length s → byte_at s j ≡ byte_at e j)
    → s ≡ e
unfolding byte_at
bytes-eq [] [] l h = refl
bytes-eq [] (b ∷ e) l h = absurd (omega arith)
bytes-eq (a ∷ s) [] l h = absurd (omega arith)
bytes-eq (a ∷ s) (b ∷ e) l h =
    let first : a ≡ b = h 0 (omega arith) in
    let rest : s ≡ e = bytes-eq s e (omega arith) (λ j u. h (suc j) (omega arith)) in cc

-- The comparison of tokens, which goes through all bytes, accepts exactly the expected bytes.
pub authenticate_iff :
    (expected supplied : List ℕ) → (authenticate expected supplied ≡ true) ↔ (supplied ≡ expected)
unfolding authenticate
authenticate_iff expected supplied = (accepted, refused)
  where
    accepted : authenticate expected supplied ≡ true → supplied ≡ expected
    accepted e =
        let sizes : length supplied ≡ length expected = ground arith in
        let zero_sum : accumulate supplied expected 0 (max (length supplied) (length expected)) 0
            ≡ 0 =
          ground arith in
        bytes-eq supplied expected sizes
          (λ j u. accumulate-bytes supplied expected 0 _ 0 j zero_sum (omega arith) (omega arith))

    refused : supplied ≡ expected → authenticate expected supplied ≡ true
    refused e =
        rw (e, accumulate-same expected 0 (max (length expected) (length expected))) (ground arith)
