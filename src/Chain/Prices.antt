-- ===== src/Chain/Prices.antt =====
-- The prices of subnets in src/chain.rs: `fixed_bits_to_rao` and `i96f32_to_rao`. The value that the
-- chain's storage holds is decoded by subxt.
use buyback.Base.{
  ℕ, zero, suc, ◌+◌, ◌-◌, ◌*◌, ◌/◌, ◌%◌, ◌^◌, ◌≤◌, ◌<◌, ◌≡◌, min, refl, ap, ◌∙◌, sym, Option, none,
  some, arith, u64_max, ltb, if◌then◌else◌,
}
use native.Mathlib.Nat.{
  mul-add-div, mod-lt, mod-eq_of_lt, one-le-pow, pow-le-pow_right, div-add-mod, add-mul, mul_assoc,
}
use buyback.Error.{Error, Result, ok, ◌>>=◌, ok_or}
use buyback.Units.{rao_per_tao}

-- `u128::MAX`
abbrev pub u128_max : ℕ
u128_max = 2 ^ 128 - 1

-- `fixed_bits_to_rao`, for `frac < 128`: `>> frac` is a division, and the mask leaves the remainder.
unfoldable pub fixed_bits_to_rao : (bits frac : ℕ) → ℕ
fixed_bits_to_rao bits frac =
    let whole = bits / 2 ^ frac in
    let part = bits % 2 ^ frac in
    min
      (min (min (whole * rao_per_tao) u128_max + part * rao_per_tao % 2 ^ 128 / 2 ^ frac) u128_max)
      u64_max

-- An `i128`: `negsuc n` is -(n + 1).
pub data ℤ : Type 0 where
  pos : ℕ → ℤ
  negsuc : ℕ → ℤ

-- The part of `scale_value::Value` that the source looks at.
mutual
  pub data Value : Type 0 where
    i128 : ℤ → Value
    u128 : ℕ → Value
    composite : Values → Value
    other : Value

  pub data Values : Type 0 where
    nil : Values
    cons : Value → Values → Values

abbrev or_else : Option ℤ → Option ℤ → Option ℤ
or_else none o = o
or_else (some n) o = some n

-- `find`: the first integer of an `i128` in the tree.
unfoldable mutual
  pub find_bits : Value → Option ℤ
  find_bits (i128 n) = some n
  find_bits (u128 n) = if ltb n (2 ^ 127) then some (pos n) else none
  find_bits (composite vs) = find_map_bits vs
  find_bits other = none

  pub find_map_bits : Values → Option ℤ
  find_map_bits nil = none
  find_map_bits (cons v vs) = or_else (find_bits v) (find_map_bits vs)

-- `bits <= 0` has the price 0.
abbrev rao_of_bits : ℤ → ℕ
rao_of_bits (negsuc n) = 0
rao_of_bits (pos zero) = 0
rao_of_bits (pos (suc n)) = fixed_bits_to_rao (suc n) 32

-- `i96f32_to_rao`
unfoldable pub i96f32_to_rao : Value → Result ℕ
i96f32_to_rao v = do
  bits ← ok_or (find_bits v) (Error.chain "cannot decode SubnetMovingPrice")
  ok (rao_of_bits bits)

-- A product is divided part by part.
div-mul_split : (bits p r : ℕ) → 0 < p → bits * r / p ≡ bits / p * r + bits % p * r / p
div-mul_split bits p r h =
    let split : bits * r ≡ p * (bits / p * r) + bits % p * r =
      ap (λ (n : ℕ). n * r) (sym (div-add-mod bits p))
      ∙ add-mul (p * (bits / p)) (bits % p) r
      ∙ ap (λ (n : ℕ). n + bits % p * r) (mul_assoc p (bits / p) r) in
    ap (λ (n : ℕ). n / p) split ∙ mul-add-div h _ _

part_fits : (bits p : ℕ) → 0 < p → p ≤ 2 ^ 98 → bits % p * rao_per_tao < 2 ^ 128
part_fits bits p h le = omega (arith, mod-lt bits h)

saturations : (w q : ℕ) → min (min (min w u128_max + q) u128_max) u64_max ≡ min (w + q) u64_max
saturations w q = omega arith

-- For a fixed-point number with at most 98 bits behind the point, the price in rao is the exact
-- product, rounded down, or the greatest `u64` where that is less.
pub fixed_bits_to_rao-floor :
    (bits frac : ℕ)
    → frac ≤ 98
    → fixed_bits_to_rao bits frac ≡ min (bits * rao_per_tao / 2 ^ frac) u64_max
unfolding fixed_bits_to_rao
fixed_bits_to_rao-floor bits frac h =
    let p : 0 < 2 ^ frac = one-le-pow frac 2 (omega arith) in
    let small : 2 ^ frac ≤ 2 ^ 98 = pow-le-pow_right (omega arith) h in
    rw
      (
        div-mul_split bits (2 ^ frac) rao_per_tao p,
        mod-eq_of_lt (part_fits bits (2 ^ frac) p small),
      )
      (saturations _ _)

rao_of_bits-floor : (n : ℕ) → rao_of_bits (pos n) ≡ min (n * rao_per_tao / 2 ^ 32) u64_max
rao_of_bits-floor zero = refl
rao_of_bits-floor (suc n) = fixed_bits_to_rao-floor (suc n) 32 (omega arith)

-- The moving price that is read from a stored number of bits, at least 0, is the number that the bits
-- stand for with 32 of them behind the point, in rao and rounded down, or the greatest `u64`.
pub i96f32_to_rao-floor :
    (v : Value) (n : ℕ)
    → find_bits v ≡ some (pos n)
    → i96f32_to_rao v ≡ ok (min (n * rao_per_tao / 2 ^ 32) u64_max)
unfolding i96f32_to_rao
i96f32_to_rao-floor v n h = rw h (ap ok (rao_of_bits-floor n))
