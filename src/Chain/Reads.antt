-- ===== src/Chain/Reads.antt =====
-- The other reads of the client `Chain` in src/chain.rs: heads, blocks, prices and fees. What the node holds at
-- a block, and the decoding of SCALE bytes, are third-party code: the records `Point` and `Scale` have the answers.
use Prim.Native.Char.{code}
use buyback.Base.{
  ℕ, ◌+◌, ◌-◌, ◌^◌, String, Option, none, some, ◌&&◌, ◌==◌, leb, ltb, length, checked_add,
  checked_mul, if◌then◌else◌,
}
use buyback.Chain.{AccountId, ChainCall}
use buyback.Chain.Payload.{Payload, payload}
use buyback.Chain.Prices.{Value, i96f32_to_rao}
use buyback.Error.{Error, Result, ok, err, ◌>>=◌, ok_or}
use buyback.Keys.Keyring.{Bytes, trim_0x}

-- The node at one block. The storage may have no timestamp, and a value may not decode.
pub record Point : Type 0 where
  pub block_number : ℕ
  pub block_hash : String
  pub timestamp : Result (Option (Result ℕ))
  pub existential_deposit : Result ℕ
  pub alpha_price : (netuid : ℕ) → Result ℕ
  pub moving_price : (netuid : ℕ) → Result Value
  pub create_signed : Payload → AccountId → Result Bytes
  pub query_info : Bytes → Result Bytes

-- What follows the weight and the class of a `RuntimeDispatchInfo`, a number of 8 or of 16 bytes, and the four
-- bytes of a length.
pub record Scale : Type 0 where
  pub after_class : Bytes → Option Bytes
  pub decode_u64 : Bytes → Option ℕ
  pub decode_u128 : Bytes → Option ℕ
  pub with_length : Bytes → Bytes

-- `best_finalized_number`
unfoldable pub best_finalized_number : Result Point → Result ℕ
best_finalized_number current = do at ← current; ok at.block_number

-- `block_timestamp_ms`
unfoldable pub block_timestamp_ms : Result Point → Result ℕ
block_timestamp_ms at_block = do
  at ← at_block
  found ← at.timestamp
  value ← ok_or found (Error.chain "block timestamp unavailable")
  value

-- `existential_deposit`
unfoldable pub existential_deposit : Result Point → Result ℕ
existential_deposit current = do at ← current; at.existential_deposit

-- `alpha_price`
unfoldable pub alpha_price : Result Point → (netuid : ℕ) → Result ℕ
alpha_price current netuid = do at ← current; at.alpha_price netuid

-- `moving_price_at`
unfoldable pub moving_price_at : Point → (netuid : ℕ) → Result ℕ
moving_price_at at netuid = do v ← at.moving_price netuid; i96f32_to_rao v

-- `moving_alpha_price`
unfoldable pub moving_alpha_price : Result Point → (netuid : ℕ) → Result ℕ
unfolding moving_price_at
moving_alpha_price current netuid = do at ← current; moving_price_at at netuid

-- `finalized_head`
unfoldable pub finalized_head : Result Point → Result (ℕ × String)
finalized_head current = do at ← current; ok (at.block_number, at.block_hash)

-- `block_hash_at`: a block that cannot be read has no hash.
unfoldable pub block_hash_at : Result Point → Result (Option String)
block_hash_at (ok at) = ok (some at.block_hash)
block_hash_at (err x) = ok none

-- `char::to_digit(16)`
abbrev hex_digit : ℕ → Option ℕ
hex_digit c =
    if leb 0x30 c && leb c 0x39
    then some (c - 0x30)
    else if leb 0x61 c && leb c 0x66
    then some (c - 0x61 + 10)
    else if leb 0x41 c && leb c 0x46
    then some (c - 0x41 + 10)
    else none

abbrev plus_digit : Option ℕ → Option ℕ → Option ℕ
plus_digit none d = none
plus_digit (some n) none = none
plus_digit (some n) (some d) = checked_add n d

-- The digits of a number of base 16, after the value of those before.
unfoldable pub hex_digits : ℕ → String → Option ℕ
hex_digits acc String.[] = some acc
hex_digits acc (String.◌∷◌ c s) = elim (plus_digit (checked_mul acc 16) (hex_digit (code c))) [
  | none ↦ none
  | some n ↦ hex_digits n s
]

-- `u64::from_str_radix(s, 16)`: a plus sign may stand before the digits.
unfoldable pub from_hex_digits : String → Option ℕ
unfolding hex_digits
from_hex_digits String.[] = none
from_hex_digits (String.◌∷◌ c String.[]) = hex_digits 0 (String.◌∷◌ c String.[])
from_hex_digits (String.◌∷◌ c (String.◌∷◌ d s)) =
    if code c == 0x2b
    then hex_digits 0 (String.◌∷◌ d s)
    else hex_digits 0 (String.◌∷◌ c (String.◌∷◌ d s))

-- `best_number`, of the number in the header that the node answers.
unfoldable pub best_number : Result String → Result ℕ
best_number header = do
  number ← header
  ok_or (from_hex_digits (trim_0x number)) (Error.chain "bad best header number")

abbrev bad_info : Error
bad_info = Error.chain "cannot decode RuntimeDispatchInfo"

abbrev fits_u64 : Option ℕ → Option ℕ
fits_u64 none = none
fits_u64 (some n) = if ltb n (2 ^ 64) then some n else none

module _ (scale : Scale) where
  -- `decode_partial_fee`
  unfoldable pub decode_partial_fee : Bytes → Result ℕ
  decode_partial_fee bytes = do
    rest ← ok_or (scale.after_class bytes) bad_info
    let wide =
        if length rest == 16
        then ok_or (fits_u64 (scale.decode_u128 rest)) bad_info
        else err bad_info
    (if length rest == 8 then ok_or (scale.decode_u64 rest) bad_info else wide)

  -- `estimate_fee`
  unfoldable pub estimate_fee : Result Point → ChainCall → AccountId → Result ℕ
  unfolding decode_partial_fee
  estimate_fee current call signer = do
    at ← current
    encoded ← at.create_signed (payload call) signer
    out ← at.query_info (scale.with_length encoded)
    decode_partial_fee out
