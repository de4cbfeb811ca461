-- ===== src/Recovery/Import.antt =====
-- `replay` of src/recovery.rs: the record that is imported, if the archived transactions reproduce
-- its accounting.
use buyback.Base.{
  ℕ, String, List, [], ◌∷◌, Option, none, some, Bool, true, false, ◌&&◌, ◌||◌, not, ◌=?◌, ◌==◌,
  string_eq, is_some, length, checked_add,
}
use buyback.Chain.{EventSummary}
use buyback.Config.{Destroy, destroy_eq}
use buyback.State.{
  PaymentState, PaymentRecord, BuybackReceipt, BuybackBudget, JobIdentity, payment_state_eq,
}
use buyback.Error.{Error, Result, ok, ◌>>=◌, ◌>>◌, fail_if, ok_or}
use buyback.Keys.{Ss58, parse_ss58}
use buyback.Recovery.{LegacyManifest, RecoveryReport, positions_eq, receipt_eq}
use buyback.Recovery.Manifest.{validate_manifest}
use buyback.Recovery.Replay.{Replayed, nothing_replayed, replay_all}

-- The sum of the positions, which fits in a `u64`.
unfoldable pub sum_positions : ℕ → List (String × ℕ) → Option ℕ
sum_positions acc [] = some acc
sum_positions acc ((h, n) ∷ ps) = elim (checked_add acc n) [
  | none ↦ none
  | some next ↦ sum_positions next ps
]

abbrev pub keeps : Option BuybackBudget → Bool
keeps none = false
keeps (some b) = b.destroy =? Destroy.keep

-- Whether the purchase is complete.
abbrev pub is_complete : Option BuybackBudget → Option BuybackReceipt → Bool
is_complete budget none = false
is_complete budget (some b) = is_some b.destroy_tx || keeps budget

abbrev failed_stage : PaymentState → Option PaymentState → PaymentState
failed_stage PaymentState.failed (some from) = from
failed_stage state _ = state

-- The stage that the payment is in, or failed in.
abbrev pub stage_of : PaymentRecord → PaymentState
stage_of r = failed_stage r.state r.failed_from

-- A payment that is still to be swept and has a later step behind it.
unfoldable pub is_ahead : PaymentRecord → Replayed → Bool
is_ahead r p =
    stage_of r =? PaymentState.funded
    && (not (p.consolidated == 0) || p.dust || is_some p.buyback || r.buyback_done)

-- `dust != r.dust_returned`
abbrev pub is_other : Bool → Bool → Bool
is_other true b = not b
is_other false b = b

-- Where the replay and the record differ.
unfoldable pub is_different : PaymentRecord → Replayed → ℕ → Bool
is_different r p total =
    not (p.funded == r.funded_tao)
    || not (p.positions =? r.swept_positions)
    || not (total == r.swept_alpha)
    || not (p.consolidated == r.consolidated)
    || is_other p.dust r.dust_returned
    || not (p.buyback =? r.buyback)

unfoldable pub is_irreproducible : PaymentRecord → LegacyManifest → Replayed → ℕ → Bool
is_irreproducible r m p total =
    is_ahead r p
    || is_different r p total
    || (r.buyback_done && not (is_complete m.budget p.buyback))

-- The identity that the manifest fixes.
abbrev pub identity_of : LegacyManifest → JobIdentity
identity_of m = record {
  genesis_hash = m.genesis_hash;
  treasury = m.treasury;
  treasury_hotkey = m.treasury_hotkey;
  consolidate = m.consolidate;
  return_dust = m.return_dust;
}

-- The record with the policy of the manifest.
abbrev pub imported : PaymentRecord → LegacyManifest → PaymentRecord
imported r m = record r {
  identity = some (identity_of m);
  auto_required = some (is_some m.budget);
  buyback_budget = m.budget;
}

abbrev pub report_of : PaymentRecord → LegacyManifest → ℕ → String → RecoveryReport
report_of r m finalized_block finalized_hash = record {
  job = r.id;
  previous_version = r.version;
  genesis_hash = m.genesis_hash;
  finalized_block = finalized_block;
  finalized_hash = finalized_hash;
  transactions = length m.transactions;
  applied = false;
}

-- `replay`
unfoldable pub replay :
    ⦃codec : Ss58⦄
    → PaymentRecord
    → LegacyManifest
    → List EventSummary × ℕ × String
    → Result (PaymentRecord × RecoveryReport)
replay r m (summaries, head, hash) = do
  validate_manifest r m
  fail_if (not (length summaries == length m.transactions))
      (Error.store "missing archived receipts")
  treasury ← parse_ss58 m.treasury
  deposit ← parse_ss58 r.address
  hotkey ← parse_ss58 m.treasury_hotkey
  p ← replay_all r m treasury deposit hotkey nothing_replayed m.transactions summaries
  total ← ok_or (sum_positions 0 p.positions) (Error.store "legacy amount overflow")
  fail_if (is_irreproducible r m p total)
      (Error.store "legacy receipts do not reproduce stored accounting")
  ok (imported r m, report_of r m head hash)
