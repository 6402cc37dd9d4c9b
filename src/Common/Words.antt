-- ===== src/Common/Words.antt =====
-- Rust's u64 and usize (64 bits): the checked and saturating operations that the program uses.
use Prim.Native.Nat.{ℕ, ◌+◌, ◌-◌, ◌≤◌, min}
use mathlib.Core.Path.{◌≡◌}
use mathlib.Core.Option.{Option, none, some}
use native.Mathlib.Omega.{arith}
use acp_tunnel.Common.Tests.{ltb, if◌then◌else◌}

abbrev pub u64_max : ℕ
u64_max = 18446744073709551615

unfoldable pub checked_add : ℕ → ℕ → Option ℕ
checked_add a b = if ltb u64_max (a + b) then none else some (a + b)

unfoldable pub checked_sub : ℕ → ℕ → Option ℕ
checked_sub a b = if ltb a b then none else some (a - b)

unfoldable pub saturating_add : ℕ → ℕ → ℕ
saturating_add a b = min (a + b) u64_max

-- Subtraction on ℕ stops at 0, as `saturating_sub` does.
abbrev pub saturating_sub : ℕ → ℕ → ℕ
saturating_sub a b = a - b

-- The numeric form of a checked sum, for proofs that keep it shut.
pub checked_add-eq-some : (a b c : ℕ) → checked_add a b ≡ some c → (c ≡ a + b) × (c ≤ u64_max)
unfolding checked_add
checked_add-eq-some a b c h = ground arith

pub checked_add_fits : (a b : ℕ) → a + b ≤ u64_max → checked_add a b ≡ some (a + b)
unfolding checked_add
checked_add_fits a b h = ground arith

pub saturating_add_fits : (a b : ℕ) → a + b ≤ u64_max → saturating_add a b ≡ a + b
unfolding saturating_add
saturating_add_fits a b h = omega arith
