-- ===== src/Base/Text.antt =====
-- The methods of Rust's `str` and `char` that the crate uses, on the native texts. A `char` is read as
-- its code point, and a length is the number of bytes in UTF-8.
use Prim.Native.Nat.{ℕ, ◌+◌, ◌-◌}
use Prim.Native.Char.{Char, code}
use Prim.Native.String.{String}
use mathlib.Core.Bool.{Bool, true, false, ◌&&◌, ◌||◌}
use mathlib.Core.Option.{Option, none, some}
use mathlib.Core.List.{List, [], ◌∷◌}
use buyback.Base.Tests.{ltb, leb, ◌==◌, if◌then◌else◌}
use buyback.Base.Words.{checked_add, checked_mul}

-- `char::is_whitespace`: the code points with the property White_Space.
unfoldable pub is_whitespace : ℕ → Bool
is_whitespace c =
    (leb 9 c && leb c 13)
    || c == 32
    || c == 0x85
    || c == 0xa0
    || c == 0x1680
    || (leb 0x2000 c && leb c 0x200a)
    || c == 0x2028
    || c == 0x2029
    || c == 0x202f
    || c == 0x205f
    || c == 0x3000

-- `char::is_ascii_digit`
abbrev pub is_digit : ℕ → Bool
is_digit c = leb 0x30 c && leb c 0x39

-- `char::is_ascii_alphanumeric`
abbrev pub is_alphanumeric : ℕ → Bool
is_alphanumeric c = is_digit c || (leb 0x41 c && leb c 0x5a) || (leb 0x61 c && leb c 0x7a)

-- `s.chars().all(p)`
unfoldable pub all_chars : (ℕ → Bool) → String → Bool
all_chars p String.[] = true
all_chars p (String.◌∷◌ c s) = p (code c) && all_chars p s

-- `s.is_empty()`
abbrev pub is_empty : String → Bool
is_empty String.[] = true
is_empty (String.◌∷◌ _ _) = false

-- `str::trim_start`
unfoldable pub trim_start : String → String
trim_start String.[] = String.[]
trim_start (String.◌∷◌ c s) =
    let rest = trim_start s in if is_whitespace (code c) then rest else String.◌∷◌ c s

-- `str::trim_end`
unfoldable pub trim_end : String → String
trim_end String.[] = String.[]
trim_end (String.◌∷◌ c s) =
    let rest = trim_end s in
    if is_empty rest && is_whitespace (code c) then String.[] else String.◌∷◌ c rest

-- `str::trim`
abbrev pub trim : String → String
trim s = trim_end (trim_start s)

-- `char::len_utf8`
abbrev pub char_bytes : ℕ → ℕ
char_bytes c = if ltb c 0x80 then 1 else if ltb c 0x800 then 2 else if ltb c 0x10000 then 3 else 4

-- `str::len`
unfoldable pub utf8_len : String → ℕ
utf8_len String.[] = 0
utf8_len (String.◌∷◌ c s) = char_bytes (code c) + utf8_len s

abbrev with_char : Char → Option (String × String) → Option (String × String)
with_char c none = none
with_char c (some (a, b)) = some (String.◌∷◌ c a, b)

-- `s.split_once(c)`, for a character `c`.
unfoldable pub split_once : ℕ → String → Option (String × String)
split_once d String.[] = none
split_once d (String.◌∷◌ c s) =
    let rest = with_char c (split_once d s) in if code c == d then some (String.[], s) else rest

abbrev pub first_part : Char → List String → List String
first_part c [] = String.◌∷◌ c String.[] ∷ []
first_part c (part ∷ parts) = String.◌∷◌ c part ∷ parts

-- `s.split(c)`, for a character `c`.
unfoldable pub split : ℕ → String → List String
split d String.[] = String.[] ∷ []
split d (String.◌∷◌ c s) =
    let parts = split d s in if code c == d then String.[] ∷ parts else first_part c parts

abbrev digit_of : Option ℕ → ℕ → Option ℕ
digit_of none d = none
digit_of (some n) d = checked_add n d

-- `s.parse::<u64>()` of a text of digits, from the value of the digits before.
unfoldable pub parse_digits : ℕ → String → Option ℕ
parse_digits acc String.[] = some acc
parse_digits acc (String.◌∷◌ c s) = elim (digit_of (checked_mul acc 10) (code c - 0x30)) [
  | none ↦ none
  | some n ↦ parse_digits n s
]

-- `s.strip_prefix(prefix)`
unfoldable pub strip_prefix : (prefix s : String) → Option String
strip_prefix String.[] s = some s
strip_prefix (String.◌∷◌ c prefix) String.[] = none
strip_prefix (String.◌∷◌ c prefix) (String.◌∷◌ d s) =
    let rest = strip_prefix prefix s in if code c == code d then rest else none
