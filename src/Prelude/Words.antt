-- ===== src/Prelude/Words.antt =====
-- Unsigned machine integers as natural numbers: the checked and saturating operations of Rust.
use Prim.Native.Nat.{ℕ, ◌+◌, ◌%◌, min}
use mathlib.Core.Option.{Option, none, some}
use transonic.Prelude.Tests.{ltb, if◌then◌else◌}

abbrev pub u32_mod : ℕ
u32_mod = 4294967296

abbrev pub u32_max : ℕ
u32_max = 4294967295

abbrev pub u64_mod : ℕ
u64_mod = 18446744073709551616

abbrev pub u64_max : ℕ
u64_max = 18446744073709551615

abbrev pub usize_max : ℕ
usize_max = 18446744073709551615

-- `u32::try_from(n).ok()`.
abbrev pub u32_from : ℕ → Option ℕ
u32_from n = if ltb n u32_mod then some n else none

-- `u32::try_from(n).unwrap_or(u32::MAX)`.
abbrev pub u32_or_max : ℕ → ℕ
u32_or_max n = if ltb n u32_mod then n else u32_max

abbrev pub saturating_add_u32 : ℕ → ℕ → ℕ
saturating_add_u32 a b = min (a + b) u32_max

abbrev pub saturating_add_u64 : ℕ → ℕ → ℕ
saturating_add_u64 a b = min (a + b) u64_max

-- `usize` has 64 bits.
abbrev pub saturating_add_usize : ℕ → ℕ → ℕ
saturating_add_usize a b = min (a + b) usize_max

abbrev pub checked_add_u32 : ℕ → ℕ → Option ℕ
checked_add_u32 a b = if ltb (a + b) u32_mod then some (a + b) else none

abbrev pub wrapping_add_u32 : ℕ → ℕ → ℕ
wrapping_add_u32 a b = (a + b) % u32_mod

abbrev pub wrapping_add_u64 : ℕ → ℕ → ℕ
wrapping_add_u64 a b = (a + b) % u64_mod
