-- ===== src/Base/Words.antt =====
-- Rust's unsigned integers as native numbers, and the texts of its `String`. `+=` on `u32` and
-- `u64` wraps, as in a release build; the checked and saturating methods are written out.
use Prim.Native.Nat.{ℕ, zero, suc, ◌+◌, ◌*◌, ◌-◌, ◌^◌, ◌%◌, min}
use Prim.Native.String
use Prim.Native.String.{String}
use mathlib.Core.Option.{Option, none, some}
use buyback.Base.Tests.{ltb, if◌then◌else◌}

abbrev pub u64_mod : ℕ
u64_mod = 2 ^ 64

-- `u64::MAX`
abbrev pub u64_max : ℕ
u64_max = 2 ^ 64 - 1

abbrev pub wrap_u64 : ℕ → ℕ
wrap_u64 n = n % u64_mod

abbrev pub wrap_u32 : ℕ → ℕ
wrap_u32 n = n % 2 ^ 32

-- `a.checked_add(b)` and `a.checked_mul(b)` of `u64`.
abbrev pub checked_u64 : ℕ → Option ℕ
checked_u64 n = if ltb n u64_mod then some n else none

abbrev pub checked_add : ℕ → ℕ → Option ℕ
checked_add a b = checked_u64 (a + b)

abbrev pub checked_mul : ℕ → ℕ → Option ℕ
checked_mul a b = checked_u64 (a * b)

-- `a.saturating_add(b)` and `a.saturating_sub(b)` of `u64`.
abbrev pub saturating_add : ℕ → ℕ → ℕ
saturating_add a b = min (a + b) u64_max

abbrev pub saturating_sub : ℕ → ℕ → ℕ
saturating_sub a b = a - b

-- `s.push_str(t)`, and the text that `format!("{s}{t}")` makes.
abbrev pub push_str : String → String → String
push_str s t = String.◌++◌ s t

-- `s.chars().take(n).collect()`
unfoldable pub take_chars : ℕ → String → String
take_chars zero s = String.[]
take_chars (suc n) String.[] = String.[]
take_chars (suc n) (String.◌∷◌ c s) = String.◌∷◌ c (take_chars n s)
