-- ===== src/Units/Tests.antt =====
-- Runs of the functions of src/units.rs, and the theorems on them at concrete amounts.
use buyback.Error.{ok}
use buyback.Units.Amount.{pad_right, parse_amount, format_amount}
use buyback.Units.RoundTrip.{parse_amount-format_amount}
use buyback.Base.{
  refl, is_whitespace, all_chars, utf8_len, parse_digits, split_once, trim_start, trim_end, ◌+◌,
  ◌*◌, ◌≤◌, ◌≡◌, arith,
}
use buyback.Units.{add_bps_ceil, funding_needed, buy_limit_price}
use buyback.Units.Bounds.{funding_needed_covers, buy_limit_price_bounds}

half_more : add_bps_ceil 1001 5000 ≡ 1502
unfolding add_bps_ceil
half_more = omega arith

funding_needed_covers_example : 1001 + 500 ≤ 100 + funding_needed 1001 5000 500 100
funding_needed_covers_example = funding_needed_covers 1001 5000 500 100 (omega arith) (omega arith)

buy_limit_price_bounds_example :
    (1 ≤ buy_limit_price 777 100)
    × (777 ≤ buy_limit_price 777 100)
    × (buy_limit_price 777 100 * 10_000 ≤ 777 * 10_100 + 10_000)
buy_limit_price_bounds_example = buy_limit_price_bounds 777 100 (omega arith) (omega arith)

half_tao : parse_amount " .5 " ≡ ok 500_000_000
unfolding parse_amount trim_start split_once trim_end is_whitespace utf8_len all_chars parse_digits
    pad_right
half_tao = refl

parse_amount-format_amount_example : parse_amount (format_amount 12_000_000_001) ≡ ok 12_000_000_001
parse_amount-format_amount_example = parse_amount-format_amount 12_000_000_001 (omega arith)
