-- ===== src/Recovery/Tests.antt =====
-- Runs of the recovery (src/recovery.rs, src/chain.rs), and its theorems at concrete data.
use buyback.Base.{
  ◌≡◌, refl, [], ◌∷◌, some, none, false, is_whitespace, trim_start, trim_end, utf8_len,
  String-discrete, ℕ_discrete,
}
use buyback.Chain.{EventSummary, pallet, name, amount, expected_event}
use buyback.Config.{Destroy-discrete}
use buyback.State.{PaymentState-discrete}
use buyback.Recovery.{TxRefs-discrete, Positions-discrete, BuybackReceipt-discrete}
use buyback.Chain.Events.{from_events, read_events, read_kind, kind_of, signer_of}
use buyback.Error.{ok}
use buyback.Recovery.Manifest.{
  validate_manifest, is_unresolved, is_unaudited, is_touched, check_signers, check_transactions,
  is_bad_transaction, has_hash, has_nonce, receipts,
}
use buyback.Recovery.Audit.{IsComplete}
use buyback.Recovery.Import.{
  imported, report_of, replay, is_ahead, is_different, is_irreproducible, sum_positions,
}
use buyback.Recovery.Replay.{replay_all, replay_call, has_position}
use buyback.Recovery.Archive.{
  verify_legacy_archive, scan_block, scan_from, scan_own, is_unexplained, same_bytes,
  get_transaction,
}
use buyback.Recovery.Totals.{IsReproduced}
use buyback.Recovery.Verify.{verify}
use buyback.Recovery.Evidence.{IsCovered, verify-IsCovered}
use buyback.Fixtures.{codec}
use buyback.Fixtures.Legacy.{legacy_payment, manifest, archive, fund_events}

pub manifest_is_valid : validate_manifest legacy_payment manifest ≡ ok tt
unfolding validate_manifest String-discrete is_unresolved is_unaudited utf8_len trim_end trim_start
    is_whitespace is_touched check_signers check_transactions is_bad_transaction has_hash has_nonce
    name amount TxRefs-discrete receipts ℕ_discrete
manifest_is_valid = refl

abbrev fund_summary : EventSummary
fund_summary = record {
  names = ("Balances", "Transfer") ∷ ("System", "ExtrinsicSuccess") ∷ [];
  failed = false;
  stake_added = none;
  alpha_destroyed = none;
  stake_moved_tao = none;
  transferred = some 123;
}

abbrev sweep_summary : EventSummary
sweep_summary = record {
  names = (pallet, "StakeTransferred") ∷ ("System", "ExtrinsicSuccess") ∷ [];
  failed = false;
  stake_added = none;
  alpha_destroyed = none;
  stake_moved_tao = some 6;
  transferred = none;
}

funding_is_read : from_events fund_events ≡ ok fund_summary
unfolding from_events read_events read_kind kind_of String-discrete
funding_is_read = refl

replayed :
    replay legacy_payment manifest (fund_summary ∷ sweep_summary ∷ [], 27, "top")
    ≡ ok (imported legacy_payment manifest, report_of legacy_payment manifest 27 "top")
unfolding replay expected_event is_ahead is_different is_irreproducible sum_positions replay_all
    replay_call has_position Positions-discrete BuybackReceipt-discrete PaymentState-discrete
    Destroy-discrete validate_manifest String-discrete is_unresolved is_unaudited utf8_len trim_end
    trim_start is_whitespace is_touched check_signers check_transactions is_bad_transaction has_hash
    has_nonce name amount TxRefs-discrete receipts ℕ_discrete
replayed = refl

pub verified :
    verify archive legacy_payment manifest
    ≡ ok (imported legacy_payment manifest, report_of legacy_payment manifest 27 "top")
unfolding verify verify_legacy_archive scan_block scan_from scan_own is_unexplained same_bytes
    get_transaction signer_of replay expected_event is_ahead is_different is_irreproducible
    sum_positions replay_all replay_call has_position Positions-discrete BuybackReceipt-discrete
    PaymentState-discrete Destroy-discrete validate_manifest String-discrete is_unresolved
    is_unaudited utf8_len trim_end trim_start is_whitespace is_touched check_signers
    check_transactions is_bad_transaction has_hash has_nonce name amount TxRefs-discrete receipts
    ℕ_discrete from_events read_events read_kind kind_of
verified = refl

verify-IsCovered_example :
    IsComplete legacy_payment manifest
    × IsCovered archive legacy_payment manifest 27
    × IsReproduced legacy_payment manifest.transactions
    × (imported legacy_payment manifest ≡ imported legacy_payment manifest)
verify-IsCovered_example =
    verify-IsCovered archive legacy_payment manifest (imported legacy_payment manifest)
      (report_of legacy_payment manifest 27 "top") verified
