-- ===== src/Chain/Events.antt =====
-- `EventSummary::from_events` and `signer_of` of src/chain.rs. The decoding of an event's fields is
-- subxt's: an event has the result of each decoding that the source asks for.
use buyback.Base.{
  ℕ, ◌+◌, ◌*◌, String, List, [], ◌∷◌, ◌++◌, Option, none, some, Bool, true, false, ◌&&◌, ◌||◌, ◌=?◌,
  ◌==◌, string_eq, length, unwrap_or, wrap_u64, if◌then◌else◌,
}
use buyback.Chain.{AccountId, EventSummary, pallet}
use buyback.Error.{Result, ok, err, ◌>>=◌}

-- An event of an extrinsic.
pub record Event : Type 0 where
  pub pallet_name : String
  pub event_name : String
  pub tao_and_alpha : Result (ℕ × ℕ)
  pub destroyed_amount : Result ℕ
  pub moved_tao : Result ℕ
  pub transfer_amount : Result ℕ

abbrev pub is_event : Event → String → String → Bool
is_event ev p n = ev.pallet_name =? p && ev.event_name =? n

abbrev pub no_events : EventSummary
no_events = record {
  names = [];
  failed = false;
  stake_added = none;
  alpha_destroyed = none;
  stake_moved_tao = none;
  transferred = none;
}

abbrev add_stake : EventSummary → Result (ℕ × ℕ) → Result EventSummary
add_stake s (ok amounts) = ok (record s { stake_added = some amounts })
add_stake s (err e) = err e

abbrev add_destroyed : EventSummary → Result ℕ → Result EventSummary
add_destroyed s (ok amount) = ok (record s { alpha_destroyed = some amount })
add_destroyed s (err e) = err e

abbrev add_moved : EventSummary → Result ℕ → Result EventSummary
add_moved s (ok tao) = ok (record s { stake_moved_tao = some tao })
add_moved s (err e) = err e

-- The sum of the transfers wraps, as `u64` does in a release build.
abbrev add_transfer : EventSummary → Result ℕ → Result EventSummary
add_transfer s (ok amount) =
    ok (record s { transferred = some (wrap_u64 (unwrap_or s.transferred 0 + amount)) })
add_transfer s (err e) = err e

-- What `from_events` reads from an event.
pub data Kind : Type 0 where
  failure purchase destruction movement transfer other : Kind

abbrev pub choose : (a b c d e : Bool) → Kind
choose a b c d e =
    if a
    then Kind.failure
    else if b
    then Kind.purchase
    else if c
    then Kind.destruction
    else if d
    then Kind.movement
    else if e
    then Kind.transfer
    else Kind.other

abbrev pub is_purchase : Event → Bool
is_purchase ev = is_event ev pallet "StakeAdded"

abbrev pub is_destruction : Event → Bool
is_destruction ev = is_event ev pallet "AlphaBurned" || is_event ev pallet "AlphaRecycled"

abbrev pub is_movement : Event → Bool
is_movement ev = is_event ev pallet "StakeTransferred" || is_event ev pallet "StakeMoved"

abbrev pub is_failure : Event → Bool
is_failure ev = is_event ev "System" "ExtrinsicFailed"

abbrev pub is_transfer : Event → Bool
is_transfer ev = is_event ev "Balances" "Transfer"

-- The `match` on the names of an event.
unfoldable pub kind_of : Event → Kind
kind_of ev =
    choose (is_failure ev) (is_purchase ev) (is_destruction ev) (is_movement ev) (is_transfer ev)

unfoldable pub read_kind : EventSummary → Event → Kind → Result EventSummary
read_kind s ev Kind.failure = ok (record s { failed = true })
read_kind s ev Kind.purchase = add_stake s ev.tao_and_alpha
read_kind s ev Kind.destruction = add_destroyed s ev.destroyed_amount
read_kind s ev Kind.movement = add_moved s ev.moved_tao
read_kind s ev Kind.transfer = add_transfer s ev.transfer_amount
read_kind s ev Kind.other = ok s

-- `s.names.push((p, n))`
abbrev pub push_name : EventSummary → Event → EventSummary
push_name s ev = record s { names = s.names ++ (ev.pallet_name, ev.event_name) ∷ [] }

-- The loop over the events.
unfoldable pub read_events : EventSummary → List (Result Event) → Result EventSummary
read_events s [] = ok s
read_events s (err e ∷ evs) = err e
read_events s (ok ev ∷ evs) = do
  next ← read_kind s ev (kind_of ev)
  read_events (push_name next ev) evs

-- `EventSummary::from_events`
unfoldable pub from_events : List (Result Event) → Result EventSummary
from_events evs = read_events no_events evs

-- `AccountId32` of its bytes.
abbrev pub account_of : ℕ → List ℕ → AccountId
account_of acc [] = acc
account_of acc (b ∷ bs) = account_of (acc * 256 + b) bs

-- `signer_of`
unfoldable pub signer_of : List ℕ → Option AccountId
signer_of [] = none
signer_of (tag ∷ rest) = if tag == 0 && length rest == 32 then some (account_of 0 rest) else none
