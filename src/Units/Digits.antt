-- ===== src/Units/Digits.antt =====
-- The texts of numbers, as `format_amount` writes them and `parse_amount` reads them (src/units.rs).
use Prim.Native.Char.{code}
use buyback.Base.{
  ℕ, zero, suc, ◌+◌, ◌-◌, ◌*◌, ◌/◌, ◌%◌, ◌≤◌, ◌<◌, ltb, String, Bool, true, false, some, not, ◌≡◌,
  refl, ap, ◌∙◌, arith, Bool-cases, inl, inr, is_digit, is_empty, is_whitespace, all_chars, trim,
  trim_start, trim_end, utf8_len, split_once, parse_digits, u64_mod,
}
use buyback.Units.Amount.{pad_right, digit, show, show_padded}

pub code-digit : (d : ℕ) → d < 10 → code (digit d) ≡ 0x30 + d
unfolding digit
code-digit zero h = refl
code-digit (suc zero) h = refl
code-digit (suc (suc zero)) h = refl
code-digit (suc (suc (suc zero))) h = refl
code-digit (suc (suc (suc (suc zero)))) h = refl
code-digit (suc (suc (suc (suc (suc zero))))) h = refl
code-digit (suc (suc (suc (suc (suc (suc zero)))))) h = refl
code-digit (suc (suc (suc (suc (suc (suc (suc zero))))))) h = refl
code-digit (suc (suc (suc (suc (suc (suc (suc (suc zero)))))))) h = refl
code-digit (suc (suc (suc (suc (suc (suc (suc (suc (suc zero))))))))) h = refl
code-digit (suc (suc (suc (suc (suc (suc (suc (suc (suc (suc d)))))))))) h = absurd (omega arith)

-- What a text of digits stands for, after digits that stand for `acc`.
unfoldable pub value : ℕ → String → ℕ
value acc String.[] = acc
value acc (String.◌∷◌ c s) = value (acc * 10 + (code c - 0x30)) s

le-value : (acc : ℕ) (s : String) → acc ≤ value acc s
unfolding value
le-value acc String.[] = omega arith
le-value acc (String.◌∷◌ c s) = omega (arith, le-value (acc * 10 + (code c - 0x30)) s)

-- Parsing gives the value, if that fits.
pub parse_digits-value :
    (acc : ℕ) (s : String) → value acc s < u64_mod → parse_digits acc s ≡ some (value acc s)
unfolding value parse_digits
parse_digits-value acc String.[] h = refl
parse_digits-value acc (String.◌∷◌ c s) h =
    let n = acc * 10 + (code c - 0x30) in ground (arith, le-value n s, parse_digits-value n s h)

unfoldable pub pow10 : ℕ → ℕ
pow10 zero = 1
pow10 (suc k) = 10 * pow10 k

-- A digit read back, after a number that ends in zero.
value-digit :
    (m d : ℕ) (rest : String)
    → d < 10
    → value (m + (code (digit d) - 0x30)) rest ≡ value (m + d) rest
value-digit m d rest h = ap (λ (v : ℕ). value v rest) (omega (arith, code-digit d h))

pub value-show : (k n : ℕ) (rest : String) → n < pow10 k → value 0 (show k n rest) ≡ value n rest
unfolding show pow10 value
value-show zero n rest h = let e : n ≡ 0 = omega arith in rw e refl
value-show (suc k) n rest h = elim (Bool-cases (ltb n 10)) [
  | inl e ↦
      rw e (value-digit 0 n rest (ground (arith, e)) ∙ ap (λ (m : ℕ). value m rest) (omega arith))
  | inr e ↦ rw e (
      value-show k (n / 10) (String.◌∷◌ (digit (n % 10)) rest) (omega arith)
      ∙ value-digit (n / 10 * 10) (n % 10) rest (omega arith)
      ∙ ap (λ (m : ℕ). value m rest) (omega arith))
]

pub value-show_padded :
    (k n : ℕ) (rest : String) → n < pow10 k → value 0 (show_padded k n rest) ≡ value n rest
unfolding show_padded pow10 value
value-show_padded zero n rest h = let e : n ≡ 0 = omega arith in rw e refl
value-show_padded (suc k) n rest h =
    value-show_padded k (n / 10) (String.◌∷◌ (digit (n % 10)) rest) (omega arith)
    ∙ value-digit (n / 10 * 10) (n % 10) rest (omega arith)
    ∙ ap (λ (m : ℕ). value m rest) (omega arith)

-- A property of all digits holds of a number's text.
module _ (p : ℕ → Bool) (digits : (d : ℕ) → d < 10 → p (0x30 + d) ≡ true) where
  pub all_chars-show :
      (k n : ℕ) (rest : String) → all_chars p rest ≡ true → all_chars p (show k n rest) ≡ true
  unfolding show all_chars
  all_chars-show zero n rest h = h
  all_chars-show (suc k) n rest h = elim (Bool-cases (ltb n 10)) [
    | inl e ↦ rw (e, code-digit n (ground (arith, e)), digits n (ground (arith, e))) h
    | inr e ↦ rw e (
        all_chars-show k (n / 10) (String.◌∷◌ (digit (n % 10)) rest)
          (rw (code-digit (n % 10) (omega arith), digits (n % 10) (omega arith)) h))
  ]

  pub all_chars-show_padded :
      (k n : ℕ) (rest : String)
      → all_chars p rest ≡ true
      → all_chars p (show_padded k n rest) ≡ true
  unfolding show_padded all_chars
  all_chars-show_padded zero n rest h = h
  all_chars-show_padded (suc k) n rest h =
      all_chars-show_padded k (n / 10) (String.◌∷◌ (digit (n % 10)) rest)
        (rw (code-digit (n % 10) (omega arith), digits (n % 10) (omega arith)) h)

-- Characters that `trim` keeps.
abbrev pub solid : ℕ → Bool
solid c = not (is_whitespace c)

trim_start-solid : (s : String) → all_chars solid s ≡ true → trim_start s ≡ s
unfolding trim_start all_chars
trim_start-solid String.[] h = refl
trim_start-solid (String.◌∷◌ c s) h = ground arith

trim_end-solid : (s : String) → all_chars solid s ≡ true → trim_end s ≡ s
unfolding trim_end all_chars
trim_end-solid String.[] h = refl
trim_end-solid (String.◌∷◌ c s) h = ground (arith, trim_end-solid s)

pub trim-solid : (s : String) → all_chars solid s ≡ true → trim s ≡ s
trim-solid s h = rw (trim_start-solid s h) (trim_end-solid s h)

split_once-digit :
    (d : ℕ) (rest a b : String)
    → d < 10
    → split_once 0x2e rest ≡ some (a, b)
    → split_once 0x2e (String.◌∷◌ (digit d) rest) ≡ some (String.◌∷◌ (digit d) a, b)
unfolding split_once
split_once-digit d rest a b lt h = ground (arith, code-digit d lt)

pub split_once-show :
    (k n : ℕ) (rest a b : String)
    → split_once 0x2e rest ≡ some (a, b)
    → split_once 0x2e (show k n rest) ≡ some (show k n a, b)
unfolding show
split_once-show zero n rest a b h = h
split_once-show (suc k) n rest a b h = elim (Bool-cases (ltb n 10)) [
  | inl e ↦ rw e (split_once-digit n rest a b (ground (arith, e)) h)
  | inr e ↦ rw e (
      split_once-show k (n / 10) (String.◌∷◌ (digit (n % 10)) rest) (String.◌∷◌ (digit (n % 10)) a)
        b (split_once-digit (n % 10) rest a b (omega arith) h))
]

pub utf8_len-show_padded :
    (k n : ℕ) (rest : String) → utf8_len (show_padded k n rest) ≡ k + utf8_len rest
unfolding show_padded utf8_len
utf8_len-show_padded zero n rest = omega arith
utf8_len-show_padded (suc k) n rest =
    let d = code-digit (n % 10) (omega arith) in
    ground (arith, d, utf8_len-show_padded k (n / 10) (String.◌∷◌ (digit (n % 10)) rest))

pub pad_right-full :
    (k : ℕ) (s : String) → all_chars is_digit s ≡ true → utf8_len s ≡ k → pad_right k s ≡ s
unfolding pad_right all_chars utf8_len
pad_right-full zero s h l = refl
pad_right-full (suc k) String.[] h l = absurd (omega arith)
pad_right-full (suc k) (String.◌∷◌ c s) h l = ground (arith, pad_right-full k s)

pub nonempty : (s : String) → 0 < utf8_len s → is_empty s ≡ false
unfolding utf8_len
nonempty String.[] h = absurd (omega arith)
nonempty (String.◌∷◌ c s) h = refl
