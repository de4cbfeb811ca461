-- ===== src/Units/Bounds.antt =====
-- The promises of src/units.rs: what a funded wallet can pay, what a buy may cost, and what a
-- buyback leaves in the treasury.
use buyback.Base.{ℕ, ◌+◌, ◌-◌, ◌*◌, ◌≤◌, ◌<◌, ◌≡◌, u64_max, u64_mod, wrap_u64, arith, ◌⊎◌}
use native.Mathlib.Nat.{mod-eq_of_lt}
use buyback.Units.{bps_all, add_bps_ceil, funding_needed, buy_limit_price, spendable}

-- The factor `BPS + bps` fits its `u64`.
no_wrap : (bps : ℕ) → bps_all + bps < u64_mod → wrap_u64 (bps_all + bps) ≡ bps_all + bps
no_wrap bps h = mod-eq_of_lt h

-- Where the result is below the greatest `u64` and the factor fits, it is the least number that
-- is at least `value * (1 + bps/10000)`.
pub add_bps_ceil_exact :
    (value bps : ℕ)
    → bps_all + bps < u64_mod
    → add_bps_ceil value bps < u64_max
    → (value * (bps_all + bps) ≤ add_bps_ceil value bps * bps_all)
      × (add_bps_ceil value bps * bps_all < value * (bps_all + bps) + bps_all)
unfolding add_bps_ceil
add_bps_ceil_exact value bps h = rw (no_wrap bps h) (λ s. (omega arith, omega arith))

-- A margin never lowers an amount.
pub le-add_bps_ceil :
    (value bps : ℕ) → bps_all + bps < u64_mod → value ≤ u64_max → value ≤ add_bps_ceil value bps
unfolding add_bps_ceil
le-add_bps_ceil value bps h s = rw (no_wrap bps h) (omega arith)

-- After the treasury has sent what `funding_needed` asks for, the wallet can pay the estimated
-- fees and still holds the existential deposit, if that sum and the margin's factor fit `u64`.
pub funding_needed_covers :
    (fees margin_bps existential_deposit current_free : ℕ)
    → bps_all + margin_bps < u64_mod
    → fees + existential_deposit ≤ u64_max
    → fees + existential_deposit
      ≤ current_free + funding_needed fees margin_bps existential_deposit current_free
unfolding funding_needed
funding_needed_covers fees margin_bps ed free h s =
    omega (arith, le-add_bps_ceil fees margin_bps h (omega arith))

-- What `spendable` allows leaves the fee reserve and the existential deposit, or nothing is spent.
pub spendable_keeps :
    (free fee_reserve existential_deposit amount : ℕ)
    → amount ≤ spendable free fee_reserve existential_deposit
    → (amount ≡ 0) ⊎ (amount + fee_reserve + existential_deposit ≤ free)
unfolding spendable
spendable_keeps free fee_reserve ed amount h = omega arith

add_bps_ceil-le :
    (value bps : ℕ)
    → bps_all + bps < u64_mod
    → add_bps_ceil value bps * bps_all ≤ value * (bps_all + bps) + (bps_all - 1)
unfolding add_bps_ceil
add_bps_ceil-le value bps h = rw (no_wrap bps h) (omega arith)

-- For a price in `u64` and a factor that fits, the limit price is at least 1 and at least the
-- price, and at most 1 above the price raised by the slippage.
pub buy_limit_price_bounds :
    (price slippage_bps : ℕ)
    → bps_all + slippage_bps < u64_mod
    → price ≤ u64_max
    → (1 ≤ buy_limit_price price slippage_bps)
      × (price ≤ buy_limit_price price slippage_bps)
      × (buy_limit_price price slippage_bps * bps_all ≤ price * (bps_all + slippage_bps) + bps_all)
unfolding buy_limit_price
buy_limit_price_bounds price slippage_bps h s =
    let low = le-add_bps_ceil price slippage_bps h s in
    let high = add_bps_ceil-le price slippage_bps h in
    (omega arith, omega (arith, low), omega (arith, high))
