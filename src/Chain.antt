-- ===== src/Chain.antt =====
-- The transaction data of src/chain.rs and the `Action` of src/engine.rs: the calls that the crate
-- sends, the journal entry written before a broadcast, and what a finalized block says of it. Child modules:
-- Finalized (`find_pending`), Absence (its proofs), Events (`from_events`, `signer_of`), Summary
-- (their proofs), Deposits (`deposits_in_block`), Credits and Listing (its proofs), Prices
-- (`i96f32_to_rao`), Client (the reads and the broadcast of the client), Confirmed and Queries (its
-- proofs), Payload (`payload`), Metadata (`verify_metadata`), Runtime (its proofs), Reads (heads, prices and fees), Endpoints (`connect_any`, `redact_url`), Connection and Redaction (its proofs), and tests.
pub mod Finalized
pub mod Absence
pub mod Events
pub mod Summary
pub mod Deposits
pub mod Credits
pub mod Listing
pub mod Prices
pub mod Client
pub mod Confirmed
pub mod Queries
pub mod Payload
pub mod Metadata
pub mod Runtime
pub mod Reads
pub mod Endpoints
pub mod Redaction
pub mod Connection
mod EndpointTests
mod ClientTests
mod RuntimeTests
mod DepositTests
mod Tests
use buyback.Base.{
  ℕ, String, List, Option, Bool, ◌&&◌, false, true, ◌∷◌, [], ◌||◌, Eq, ◌=?◌, string_eq,
  String-discrete, ℕ_discrete,
}

-- An `AccountId32`: its 32 bytes, read as one number.
abbrev pub AccountId : Type 0
AccountId = ℕ

-- `Action`: why a journaled extrinsic was sent.
pub data Action : Type 0 where
  fund : Action
  sweep : (hotkey : String) → Action
  consolidate : (hotkey : String) → Action
  return_dust : Action
  buy_stake : (netuid limit_price : ℕ) → Action
  destroy : (netuid : ℕ) (recycle : Bool) → Action

-- `ChainCall`: every extrinsic that the crate sends.
pub data ChainCall : Type 0 where
  transfer_tao : (dest : AccountId) (amount : ℕ) → ChainCall
  transfer_all : (dest : AccountId) → ChainCall
  transfer_stake : (dest_coldkey hotkey : AccountId) (netuid alpha : ℕ) → ChainCall
  move_stake : (from_hotkey to_hotkey : AccountId) (netuid alpha : ℕ) → ChainCall
  add_stake_limit :
      (hotkey : AccountId) (netuid tao limit_price : ℕ) (allow_partial : Bool) → ChainCall
  associate_hotkey : (hotkey : AccountId) → ChainCall
  burn_alpha : (hotkey : AccountId) (netuid alpha : ℕ) → ChainCall
  recycle_alpha : (hotkey : AccountId) (netuid alpha : ℕ) → ChainCall

-- `TxRef` of src/state.rs: the receipt of one finalized extrinsic.
pub record TxRef : Type 0 where
  pub action : String
  pub tx_hash : String
  pub block_hash : String
  pub amount : ℕ

-- `EventSummary`: the numbers read from the events of one extrinsic.
pub record EventSummary : Type 0 where
  pub names : List (String × String)
  pub failed : Bool
  pub stake_added : Option (ℕ × ℕ)
  pub alpha_destroyed : Option ℕ
  pub stake_moved_tao : Option ℕ
  pub transferred : Option ℕ

-- `FinalizedTx`
pub record FinalizedTx : Type 0 where
  pub tx : TxRef
  pub summary : EventSummary

-- `PendingTx`: an extrinsic journaled before its broadcast.
pub record PendingTx : Type 0 where
  pub action : Action
  pub reservation : Option String
  pub signer : String
  pub nonce : ℕ
  pub tx_hash : String
  pub birth_block : ℕ
  pub amount : ℕ

-- `PreparedTx`: signed and not sent.
pub record PreparedTx : Type 0 where
  pub call : ChainCall
  pub signer : String
  pub nonce : ℕ
  pub tx_hash : String
  pub birth_block : ℕ
  pub bytes : List ℕ

-- `PendingOutcome`
pub data PendingOutcome : Type 0 where
  wait : PendingOutcome
  dead : PendingOutcome
  included : (block_hash : String) (summary : EventSummary) → PendingOutcome

-- `StakePosition`
pub record StakePosition : Type 0 where
  pub hotkey : AccountId
  pub netuid : ℕ
  pub alpha : ℕ

unfoldable pub PendingTx-discrete : Discrete (Option PendingTx)
unfolding String-discrete ℕ_discrete
PendingTx-discrete = hlevel (String-discrete, ℕ_discrete)

instance abbrev pub pending_tx_eq : Eq (Option PendingTx)
pending_tx_eq = record { discrete = PendingTx-discrete }

-- `PALLET`
abbrev pub pallet : String
pallet = "SubtensorModule"

abbrev pub has_name : List (String × String) → String → String → Bool
has_name [] p n = false
has_name ((p', n') ∷ names) p n = (p' =? p && n' =? n) || has_name names p n

-- `EventSummary::has`
abbrev pub has : EventSummary → String → String → Bool
has s p n = has_name s.names p n

-- `ChainCall::name`
unfoldable pub name : ChainCall → String
name (ChainCall.transfer_tao _ _) = "transfer_keep_alive"
name (ChainCall.transfer_all _) = "transfer_all"
name (ChainCall.transfer_stake _ _ _ _) = "transfer_stake"
name (ChainCall.move_stake _ _ _ _) = "move_stake"
name (ChainCall.add_stake_limit _ _ _ _ _) = "add_stake_limit"
name (ChainCall.burn_alpha _ _ _) = "burn_alpha"
name (ChainCall.recycle_alpha _ _ _) = "recycle_alpha"
name (ChainCall.associate_hotkey _) = "try_associate_hotkey"

-- `ChainCall::expected_event`
unfoldable pub expected_event : ChainCall → String × String
expected_event (ChainCall.transfer_tao _ _) = ("Balances", "Transfer")
expected_event (ChainCall.transfer_all _) = ("Balances", "Transfer")
expected_event (ChainCall.transfer_stake _ _ _ _) = (pallet, "StakeTransferred")
expected_event (ChainCall.move_stake _ _ _ _) = (pallet, "StakeMoved")
expected_event (ChainCall.add_stake_limit _ _ _ _ _) = (pallet, "StakeAdded")
expected_event (ChainCall.burn_alpha _ _ _) = (pallet, "AlphaBurned")
expected_event (ChainCall.recycle_alpha _ _ _) = (pallet, "AlphaRecycled")
expected_event (ChainCall.associate_hotkey _) = ("System", "ExtrinsicSuccess")

-- `ChainCall::amount`
unfoldable pub amount : ChainCall → ℕ
amount (ChainCall.transfer_tao _ n) = n
amount (ChainCall.transfer_stake _ _ _ alpha) = alpha
amount (ChainCall.move_stake _ _ _ alpha) = alpha
amount (ChainCall.burn_alpha _ _ alpha) = alpha
amount (ChainCall.recycle_alpha _ _ alpha) = alpha
amount (ChainCall.add_stake_limit _ _ tao _ _) = tao
amount (ChainCall.transfer_all _) = 0
amount (ChainCall.associate_hotkey _) = 0

-- `action_name` of src/engine.rs
unfoldable pub action_name : Action → String
action_name Action.fund = "transfer_keep_alive"
action_name (Action.sweep _) = "transfer_stake"
action_name (Action.consolidate _) = "move_stake"
action_name Action.return_dust = "transfer_all"
action_name (Action.buy_stake _ _) = "add_stake_limit"
action_name (Action.destroy _ true) = "recycle_alpha"
action_name (Action.destroy _ false) = "burn_alpha"
