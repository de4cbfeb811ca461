-- ===== src/Recovery.antt =====
-- src/recovery.rs: the import of a payment that an earlier version of the engine worked on. An operator
-- writes a manifest of every transaction of both signers, and the archive and the record must agree
-- with it. Child modules: Manifest (`validate_manifest`), Replay (the loop of `replay`),
-- Import (`replay`), Archive (the scan of src/chain.rs), Verify (`dry_run`, `verify`), Audit, Coverage,
-- Totals and Evidence (proofs), Tests.
pub mod Manifest
pub mod Replay
pub mod Import
pub mod Audit
pub mod Totals
pub mod Archive
pub mod Coverage
pub mod Verify
pub mod Evidence
pub mod Tests
use buyback.Base.{ℕ, String, List, Option, Bool, ℕ_discrete, String-discrete, Eq}
use buyback.Chain.{ChainCall, TxRef}
use buyback.State.{BuybackBudget, BuybackReceipt}
use buyback.Error.{Error}

-- `LegacyTransaction`
pub record LegacyTransaction : Type 0 where
  pub block : ℕ
  pub index : ℕ
  pub signer : String
  pub nonce : ℕ
  pub receipt : TxRef
  pub call : ChainCall

-- `LegacyManifest`
pub record LegacyManifest : Type 0 where
  pub job : String
  pub version : ℕ
  pub genesis_hash : String
  pub treasury : String
  pub treasury_hotkey : String
  pub consolidate : Bool
  pub return_dust : Bool
  pub budget : Option BuybackBudget
  pub first_block : ℕ
  pub stopped_at : ℕ
  pub maximum_mortality : ℕ
  pub operator_attestation : String
  pub all_old_emitters_stopped_no_immortal_signatures : Bool
  pub transactions : List LegacyTransaction

-- `RecoveryReport`
pub record RecoveryReport : Type 0 where
  pub job : String
  pub previous_version : ℕ
  pub genesis_hash : String
  pub finalized_block : ℕ
  pub finalized_hash : String
  pub transactions : ℕ
  pub applied : Bool

unfoldable pub TxRefs-discrete : Discrete (List TxRef)
unfolding String-discrete ℕ_discrete
TxRefs-discrete = hlevel (String-discrete, ℕ_discrete)

instance abbrev pub tx_refs_eq : Eq (List TxRef)
tx_refs_eq = record { discrete = TxRefs-discrete }

unfoldable pub Positions-discrete : Discrete (List (String × ℕ))
unfolding String-discrete ℕ_discrete
Positions-discrete = hlevel (String-discrete, ℕ_discrete)

instance abbrev pub positions_eq : Eq (List (String × ℕ))
positions_eq = record { discrete = Positions-discrete }

unfoldable pub BuybackReceipt-discrete : Discrete (Option BuybackReceipt)
unfolding String-discrete ℕ_discrete
BuybackReceipt-discrete = hlevel (String-discrete, ℕ_discrete)

instance abbrev pub receipt_eq : Eq (Option BuybackReceipt)
receipt_eq = record { discrete = BuybackReceipt-discrete }
