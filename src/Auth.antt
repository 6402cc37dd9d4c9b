-- ===== src/Auth.antt =====
-- src/auth.rs: the comparison of a supplied token with the expected one. A text counts as its
-- bytes. The header is split by calls of the standard library on texts, see `parse_bearer`.
pub mod Compared
use acp_tunnel.Common.{
  ℕ, zero, suc, ◌+◌, max, ◌≡◌, Bool, ◌&&◌, List, [], ◌∷◌, length, ◌==◌, bit_or, bit_xor,
}

-- `get(index).copied().unwrap_or_default()`
unfoldable pub byte_at : List ℕ → ℕ → ℕ
byte_at [] i = 0
byte_at (b ∷ bs) zero = b
byte_at (b ∷ bs) (suc i) = byte_at bs i

-- The loop from an index on, for so many indices.
unfoldable pub accumulate : List ℕ → List ℕ → ℕ → ℕ → ℕ → ℕ
accumulate supplied expected index zero difference = difference
accumulate supplied expected index (suc n) difference =
    accumulate supplied expected (index + 1) n
      (bit_or difference (bit_xor (byte_at supplied index) (byte_at expected index)))

unfoldable pub authenticate : List ℕ → List ℕ → Bool
authenticate expected supplied =
    (length supplied == length expected)
    && (accumulate supplied expected 0 (max (length supplied) (length expected)) 0 == 0)
