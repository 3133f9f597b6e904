-- ===== src/Prelude/Int.antt =====
-- Signed integers over the native numbers, and the bounds of Rust's integer types.
use Prim.Native.Nat.{ℕ, ◌+◌, ◌-◌, ◌^◌}
use cellora.Prelude.Tests.{ltb, leb, if◌then◌else◌}

-- `negsuc n` is -(n + 1).
pub data ℤ : Type 0 where
  pos : ℕ → ℤ
  negsuc : ℕ → ℤ

abbrev pub i32_max : ℕ
i32_max = 2 ^ 31 - 1

abbrev pub i64_max : ℕ
i64_max = 2 ^ 63 - 1

abbrev pub u32_max : ℕ
u32_max = 2 ^ 32 - 1

abbrev pub u64_max : ℕ
u64_max = 2 ^ 64 - 1

-- i32::try_from(n).unwrap_or(i32::MAX) of an unsigned n
abbrev pub clamp_i32 : ℕ → ℕ
clamp_i32 n = if leb n i32_max then n else i32_max

-- i64::try_from(n).unwrap_or(i64::MAX) of an unsigned n
abbrev pub clamp_i64 : ℕ → ℕ
clamp_i64 n = if leb n i64_max then n else i64_max

-- n.saturating_add(1), at a type whose largest value is `top`
abbrev pub saturating_suc : ℕ → ℕ → ℕ
saturating_suc top n = if ltb n top then n + 1 else top
