-- ===== src/Prelude/Words.antt =====
-- Machine integers as native numbers: the bounds of u8, u16, u32 and u64, and the saturating
-- operations. `saturating_sub` on unsigned integers is the truncated `-` of the native numbers.
use Prim.Native.Nat.{ℕ, ◌+◌, ◌*◌, ◌≤◌, ◌<◌}
use native.Mathlib.Omega.{arith}
use asli.Prelude.Tests.{leb, if◌then◌else◌}

abbrev pub u32_max : ℕ
u32_max = 4294967295

abbrev pub u64_max : ℕ
u64_max = 18446744073709551615

abbrev pub IsByte : ℕ → Type 0
IsByte b = b < 256

abbrev pub IsU32 : ℕ → Type 0
IsU32 v = v ≤ u32_max

abbrev pub IsU64 : ℕ → Type 0
IsU64 v = v ≤ u64_max

-- `u64::saturating_add` and `u64::saturating_mul`.
abbrev pub sat_add : ℕ → ℕ → ℕ
sat_add a b = if leb (a + b) u64_max then a + b else u64_max

abbrev pub sat_mul : ℕ → ℕ → ℕ
sat_mul a b = if leb (a * b) u64_max then a * b else u64_max

-- `u32::saturating_add(1)`.
abbrev pub sat_inc32 : ℕ → ℕ
sat_inc32 a = if leb (a + 1) u32_max then a + 1 else u32_max

pub sat_add_bounds : (a b : ℕ) → IsU64 a → (a ≤ sat_add a b) × (sat_add a b ≤ a + b)
sat_add_bounds a b h = ground arith
