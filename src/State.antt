-- ===== src/State.antt =====
-- The data of src/state.rs: the states of a payment and the persisted record. `serde_json::Value`
-- (metadata) is only copied and stands as its text. Child modules: Moves (`transition`,
-- `record_failure`), Budget (`validate`).
pub mod Moves
pub mod Budget
pub mod Progress
pub mod Failures
mod Tests
use buyback.Base.{
  ℕ, String, List, Option, none, some, Bool, true, false, Eq, String-discrete, ℕ_discrete,
}
use buyback.Config.{Destroy}
use buyback.Chain.{TxRef, PendingTx}

-- `PaymentState`
pub data PaymentState : Type 0 where
  pending detected funded swept settled failed expired : PaymentState

unfoldable pub PaymentState-discrete : Discrete PaymentState
PaymentState-discrete = hlevel

instance abbrev pub payment_state_eq : Eq PaymentState
payment_state_eq = record { discrete = PaymentState-discrete }

unfoldable pub Option-PaymentState-discrete : Discrete (Option PaymentState)
Option-PaymentState-discrete = hlevel

instance abbrev pub option_payment_state_eq : Eq (Option PaymentState)
option_payment_state_eq = record { discrete = Option-PaymentState-discrete }

-- `PaymentState::as_str`
unfoldable pub as_str : PaymentState → String
as_str PaymentState.pending = "pending"
as_str PaymentState.detected = "detected"
as_str PaymentState.funded = "funded"
as_str PaymentState.swept = "swept"
as_str PaymentState.settled = "settled"
as_str PaymentState.failed = "failed"
as_str PaymentState.expired = "expired"

-- `PaymentState::is_active`
unfoldable pub is_active : PaymentState → Bool
is_active PaymentState.pending = true
is_active PaymentState.detected = true
is_active PaymentState.funded = true
is_active PaymentState.swept = true
is_active _ = false

-- `PaymentState::can_transition`, from the first state to the second.
unfoldable pub can_transition : PaymentState → PaymentState → Bool
can_transition PaymentState.pending PaymentState.detected = true
can_transition PaymentState.pending PaymentState.expired = true
can_transition PaymentState.pending PaymentState.failed = true
can_transition PaymentState.detected PaymentState.funded = true
can_transition PaymentState.detected PaymentState.failed = true
can_transition PaymentState.funded PaymentState.swept = true
can_transition PaymentState.funded PaymentState.failed = true
can_transition PaymentState.swept PaymentState.settled = true
can_transition PaymentState.swept PaymentState.failed = true
can_transition PaymentState.failed PaymentState.detected = true
can_transition PaymentState.failed PaymentState.funded = true
can_transition PaymentState.failed PaymentState.swept = true
can_transition PaymentState.expired PaymentState.detected = true
can_transition _ _ = false

-- `BuybackReceipt`
pub record BuybackReceipt : Type 0 where
  pub netuid : ℕ
  pub tao_spent : ℕ
  pub alpha_bought : ℕ
  pub limit_price : ℕ
  pub stake_tx : TxRef
  pub destroy_tx : Option TxRef
  pub alpha_destroyed : ℕ

-- `BuybackBudget`
pub record BuybackBudget : Type 0 where
  pub amount_rao : ℕ
  pub currency : String
  pub source : String
  pub netuid : ℕ
  pub destroy : Destroy
  pub hotkey : String

unfoldable pub BuybackBudget-discrete : Discrete (Option BuybackBudget)
unfolding String-discrete ℕ_discrete
BuybackBudget-discrete = hlevel (String-discrete, ℕ_discrete)

instance abbrev pub budget_eq : Eq (Option BuybackBudget)
budget_eq = record { discrete = BuybackBudget-discrete }

-- `JobIdentity`
pub record JobIdentity : Type 0 where
  pub genesis_hash : String
  pub treasury : String
  pub treasury_hotkey : String
  pub consolidate : Bool
  pub return_dust : Bool

unfoldable pub JobIdentity-discrete : Discrete (Option JobIdentity)
unfolding String-discrete
JobIdentity-discrete = hlevel String-discrete

instance abbrev pub identity_eq : Eq (Option JobIdentity)
identity_eq = record { discrete = JobIdentity-discrete }

unfoldable pub Option-Bool-discrete : Discrete (Option Bool)
Option-Bool-discrete = hlevel

instance abbrev pub option_bool_eq : Eq (Option Bool)
option_bool_eq = record { discrete = Option-Bool-discrete }

-- `SealedSecret` of src/keys.rs
pub record SealedSecret : Type 0 where
  pub v : ℕ
  pub nonce : String
  pub ct : String
  pub kid : Option String

-- `PaymentRecord`
pub record PaymentRecord : Type 0 where
  pub id : String
  pub address : String
  pub netuid : ℕ
  pub min_alpha : ℕ
  pub min_tao : Option ℕ
  pub created_at : ℕ
  pub expires_at : ℕ
  pub state : PaymentState
  pub version : ℕ
  pub sealed_secret : SealedSecret
  pub metadata : Option String
  pub callback_url : Option String
  pub detected_alpha : ℕ
  pub detected_tao : ℕ
  pub funded_tao : ℕ
  pub swept_alpha : ℕ
  pub txs : List TxRef
  pub buyback : Option BuybackReceipt
  pub buyback_budget : Option BuybackBudget
  pub auto_required : Option Bool
  pub identity : Option JobIdentity
  pub attempts : ℕ
  pub next_attempt_at : ℕ
  pub last_error : Option String
  pub failed_from : Option PaymentState
  pub pending : Option PendingTx
  pub quarantined : Option PendingTx
  pub swept_positions : List (String × ℕ)
  pub consolidated : ℕ
  pub dust_returned : Bool
  pub buyback_done : Bool
  pub notified : Bool
  pub updated_at : ℕ
  pub derivation_path : Option String

-- `PaymentStatus`
pub record PaymentStatus : Type 0 where
  pub id : String
  pub address : String
  pub netuid : ℕ
  pub min_alpha : ℕ
  pub min_tao : Option ℕ
  pub created_at : ℕ
  pub expires_at : ℕ
  pub state : PaymentState
  pub detected_alpha : ℕ
  pub detected_tao : ℕ
  pub funded_tao : ℕ
  pub swept_alpha : ℕ
  pub txs : List TxRef
  pub buyback : Option BuybackReceipt
  pub last_error : Option String
  pub metadata : Option String

-- `PaymentRecord::status`
unfoldable pub status : PaymentRecord → PaymentStatus
status r = record {
  id = r.id;
  address = r.address;
  netuid = r.netuid;
  min_alpha = r.min_alpha;
  min_tao = r.min_tao;
  created_at = r.created_at;
  expires_at = r.expires_at;
  state = r.state;
  detected_alpha = r.detected_alpha;
  detected_tao = r.detected_tao;
  funded_tao = r.funded_tao;
  swept_alpha = r.swept_alpha;
  txs = r.txs;
  buyback = r.buyback;
  last_error = r.last_error;
  metadata = r.metadata;
}

-- `PaymentRequest`
pub record PaymentRequest : Type 0 where
  pub id : String
  pub address : String
  pub netuid : ℕ
  pub min_alpha : ℕ
  pub min_tao : Option ℕ
  pub expires_at : ℕ
