-- ===== src/Units/RoundTrip.antt =====
-- `parse_amount` reads back what `format_amount` writes (src/units.rs).
use buyback.Base.{
  ℕ, ◌/◌, ◌%◌, ◌≤◌, ◌<◌, String, true, false, some, ◌≡◌, refl, ap, ◌∙◌, arith, is_digit,
  is_whitespace, all_chars, trim, utf8_len, split_once, parse_digits, checked_mul, u64_mod, u64_max,
}
use buyback.Error.{ok}
use buyback.Units.{rao_per_tao}
use buyback.Units.Amount.{
  plus, parts_of, is_bad_amount, parse_amount, show, show_padded, format_amount,
}
use buyback.Units.Digits.{
  value, parse_digits-value, pow10, value-show, value-show_padded, all_chars-show,
  all_chars-show_padded, trim-solid, split_once-show, utf8_len-show_padded, pad_right-full,
  nonempty, solid,
}

-- Both parts of an amount's text.
module _ (w f : ℕ) (w_fits : w < pow10 20) (f_fits : f < pow10 9) where
  abbrev whole_text : String
  whole_text = show 20 w String.[]

  abbrev frac_text : String
  frac_text = show_padded 9 f String.[]

  digits-show : all_chars is_digit whole_text ≡ true
  unfolding all_chars
  digits-show = all_chars-show is_digit (λ d h. ground arith) 20 w String.[] refl

  digits-show_padded : all_chars is_digit frac_text ≡ true
  unfolding all_chars
  digits-show_padded = all_chars-show_padded is_digit (λ d h. ground arith) 9 f String.[] refl

  parse_digits-show : w < u64_mod → parse_digits 0 whole_text ≡ some w
  unfolding value
  parse_digits-show h =
      parse_digits-value 0 whole_text (rw (value-show 20 w String.[] w_fits) h)
      ∙ ap some (value-show 20 w String.[] w_fits)

  parse_digits-show_padded : parse_digits 0 frac_text ≡ some f
  unfolding value pow10
  parse_digits-show_padded =
      parse_digits-value 0 frac_text (rw (value-show_padded 9 f String.[] f_fits) (omega arith))
      ∙ ap some (value-show_padded 9 f String.[] f_fits)

  all_chars-solid : all_chars solid (show 20 w (String.◌∷◌ "." frac_text)) ≡ true
  unfolding all_chars is_whitespace
  all_chars-solid =
      all_chars-show solid (λ d h. ground arith) 20 w (String.◌∷◌ "." frac_text)
        (all_chars-show_padded solid (λ d h. ground arith) 9 f String.[] refl)

  parts_of-show : parts_of (trim (show 20 w (String.◌∷◌ "." frac_text))) ≡ (whole_text, frac_text)
  unfolding split_once
  parts_of-show =
      rw
        (
          trim-solid _ all_chars-solid,
          split_once-show 20 w (String.◌∷◌ "." frac_text) String.[] frac_text refl,
        )
        refl

  utf8_len-frac_text : utf8_len frac_text ≡ 9
  unfolding utf8_len
  utf8_len-frac_text = utf8_len-show_padded 9 f String.[]

  is_bad_amount-show : is_bad_amount (whole_text, frac_text) ≡ false
  is_bad_amount-show =
      rw
        (
          nonempty frac_text (omega (arith, utf8_len-frac_text)),
          utf8_len-frac_text,
          digits-show,
          digits-show_padded,
        )
        (ground arith)

parts_fit :
    (rao : ℕ) → rao ≤ u64_max → (rao / rao_per_tao < pow10 20) × (rao % rao_per_tao < pow10 9)
unfolding pow10
parts_fit rao h = (omega arith, omega arith)

plus_parts :
    (rao : ℕ)
    → rao ≤ u64_max
    → plus (checked_mul (rao / rao_per_tao) rao_per_tao) (rao % rao_per_tao) ≡ some rao
plus_parts rao h = ground arith

-- An amount in rao written in TAO is read back, for every `u64`.
pub parse_amount-format_amount :
    (rao : ℕ) → rao ≤ u64_max → parse_amount (format_amount rao) ≡ ok rao
unfolding parse_amount format_amount
parse_amount-format_amount rao h =
    let w = rao / rao_per_tao in
    let f = rao % rao_per_tao in
    let (w_fits, f_fits) = parts_fit rao h in
    let whole = parse_digits-show w f w_fits f_fits (omega arith) in
    let full =
      pad_right-full 9 (show_padded 9 f String.[]) (digits-show_padded w f w_fits f_fits)
        (utf8_len-frac_text w f w_fits f_fits) in
    rw
      (
        parts_of-show w f w_fits f_fits,
        is_bad_amount-show w f w_fits f_fits,
        whole,
        full,
        parse_digits-show_padded w f w_fits f_fits,
        plus_parts rao h,
      )
      refl
