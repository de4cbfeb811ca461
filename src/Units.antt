-- ===== src/Units.antt =====
-- src/units.rs: fee margins, slippage limits and the spendable balance, in rao. Every argument is a
-- `u64`; the products are taken in `u128`, where they fit. Child modules: Amount (the
-- decimal texts of amounts), Bounds, Digits and RoundTrip (proofs), Tests.
pub mod Bounds
pub mod Amount
mod Digits
pub mod RoundTrip
mod Tests
use buyback.Base.{
  ℕ, ◌+◌, ◌-◌, ◌*◌, ◌/◌, min, max, u64_max, wrap_u64, saturating_add, saturating_sub,
}

-- `RAO_PER_TAO`
abbrev pub rao_per_tao : ℕ
rao_per_tao = 1_000_000_000

-- `BPS`
abbrev pub bps_all : ℕ
bps_all = 10_000

-- `a.div_ceil(b)` for `b > 0`
abbrev pub div_ceil : ℕ → ℕ → ℕ
div_ceil a b = (a + (b - 1)) / b

-- `u64::try_from(n).unwrap_or(u64::MAX)`
abbrev pub saturate : ℕ → ℕ
saturate n = min n u64_max

-- `add_bps_ceil`; the sum `BPS + bps` is taken in `u64`.
unfoldable pub add_bps_ceil : ℕ → ℕ → ℕ
add_bps_ceil value bps = saturate (div_ceil (value * wrap_u64 (bps_all + bps)) bps_all)

-- `funding_needed`
unfoldable pub funding_needed : (fees margin_bps existential_deposit current_free : ℕ) → ℕ
funding_needed fees margin_bps existential_deposit current_free =
    saturating_sub (saturating_add (add_bps_ceil fees margin_bps) existential_deposit) current_free

-- `buy_limit_price`
unfoldable pub buy_limit_price : (current_price slippage_bps : ℕ) → ℕ
buy_limit_price current_price slippage_bps = max (add_bps_ceil current_price slippage_bps) 1

-- `alpha_value_in_tao`
unfoldable pub alpha_value_in_tao : (alpha price : ℕ) → ℕ
alpha_value_in_tao alpha price = saturate (alpha * price / rao_per_tao)

-- `spendable`
unfoldable pub spendable : (free fee_reserve existential_deposit : ℕ) → ℕ
spendable free fee_reserve existential_deposit =
    saturating_sub (saturating_sub free fee_reserve) existential_deposit
