-- ===== src/Units/Amount.antt =====
-- `parse_amount` and `format_amount` of src/units.rs: amounts as decimal texts with nine places.
use Prim.Native.Char.{Char}
use buyback.Base.{
  ℕ, zero, suc, ◌/◌, ◌%◌, ltb, String, Bool, Option, none, some, ◌&&◌, ◌||◌, not, is_digit,
  is_empty, all_chars, trim, utf8_len, split_once, parse_digits, checked_add, checked_mul,
  unwrap_or, push_str, if◌then◌else◌,
}
use buyback.Error.{Error, Result, ◌>>=◌, ◌>>◌, fail_if, ok_or}
use buyback.Units.{rao_per_tao}

-- `format!("{frac:0<9}")`: zeros on the right, up to nine characters.
unfoldable pub pad_right : ℕ → String → String
pad_right zero s = s
pad_right (suc n) String.[] = String.◌∷◌ "0" (pad_right n String.[])
pad_right (suc n) (String.◌∷◌ c s) = String.◌∷◌ c (pad_right n s)

-- The texts left and right of the point.
abbrev pub parts_of : String → String × String
parts_of s = unwrap_or (split_once 0x2e s) (s, "")

abbrev pub is_bad_amount : String × String → Bool
is_bad_amount (int, frac) =
    (is_empty int && is_empty frac)
    || ltb 9 (utf8_len frac)
    || not (all_chars is_digit int && all_chars is_digit frac)

abbrev pub plus : Option ℕ → ℕ → Option ℕ
plus none b = none
plus (some a) b = checked_add a b

-- `parse_amount`. The source parses "0" for an empty whole part, which is the value of no digits.
unfoldable pub parse_amount : String → Result ℕ
parse_amount text = do
  let bad = Error.config (push_str "invalid amount " text)
  let (int, frac) = parts_of (trim text)
  fail_if (is_bad_amount (int, frac)) bad
  whole ← ok_or (parse_digits 0 int) bad
  frac_rao ← ok_or (parse_digits 0 (pad_right 9 frac)) bad
  ok_or (plus (checked_mul whole rao_per_tao) frac_rao) bad

-- The character of a digit.
unfoldable pub digit : ℕ → Char
digit zero = "0"
digit (suc zero) = "1"
digit (suc (suc zero)) = "2"
digit (suc (suc (suc zero))) = "3"
digit (suc (suc (suc (suc zero)))) = "4"
digit (suc (suc (suc (suc (suc zero))))) = "5"
digit (suc (suc (suc (suc (suc (suc zero)))))) = "6"
digit (suc (suc (suc (suc (suc (suc (suc zero))))))) = "7"
digit (suc (suc (suc (suc (suc (suc (suc (suc zero)))))))) = "8"
digit _ = "9"

-- `{}` of a number of at most `k` digits, before the text `rest`.
unfoldable pub show : (k n : ℕ) → String → String
show zero n rest = rest
show (suc k) n rest =
    let more = show k (n / 10) (String.◌∷◌ (digit (n % 10)) rest) in
    if ltb n 10 then String.◌∷◌ (digit n) rest else more

-- `{:0k}` of a number of at most `k` digits, before the text `rest`.
unfoldable pub show_padded : (k n : ℕ) → String → String
show_padded zero n rest = rest
show_padded (suc k) n rest = show_padded k (n / 10) (String.◌∷◌ (digit (n % 10)) rest)

-- `format_amount`; a `u64` has at most 20 digits.
unfoldable pub format_amount : ℕ → String
format_amount rao =
    show 20 (rao / rao_per_tao) (String.◌∷◌ "." (show_padded 9 (rao % rao_per_tao) String.[]))
