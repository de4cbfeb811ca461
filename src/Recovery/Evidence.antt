-- ===== src/Recovery/Evidence.antt =====
-- What a recovery that is verified rests on (`verify` of src/recovery.rs).
use buyback.Base.{
  ℕ, suc, ◌+◌, ◌-◌, ◌<◌, ◌≡◌, String, List, [], some, false, not, ◌==◌, ◌||◌, ltb, ◌=?◌, string_eq,
  arith, length, checked_add,
}
use buyback.Chain.{AccountId, EventSummary}
use buyback.State.{PaymentRecord}
use buyback.Error.{Result, ok, fail_if, ok_or, bind_ok, check_ok, fail_if_ok, ok_or_ok}
use buyback.Keys.{Ss58, parse_ss58}
use buyback.Recovery.{LegacyManifest, RecoveryReport}
use buyback.Recovery.Manifest.{validate_manifest}
use buyback.Recovery.Audit.{IsComplete, validate_manifest-IsComplete}
use buyback.Recovery.Import.{imported}
use buyback.Recovery.Totals.{IsReproduced, replay-IsReproduced}
use buyback.Recovery.Archive.{
  Archive, Scan, bad_archive, has_hash_at, no_nonces, plus_one_of, put_nonce, scan_from,
  verify_legacy_archive,
}
use buyback.Recovery.Coverage.{Found, Holds, Accounts, scan_from-Accounts}
use buyback.Recovery.Verify.{verify}

-- The archive up to a head past the last block that a transaction could still be included in, and the
-- manifest, account for each other.
pub record IsCovered ⦃codec : Ss58⦄ (archive : Archive) (r : PaymentRecord) (m : LegacyManifest)
    (head : ℕ) : Type 0 where
  pub treasury : AccountId
  pub deposit : AccountId
  pub found : List Found
  pub of_treasury : parse_ss58 m.treasury ≡ ok treasury
  pub of_deposit : parse_ss58 r.address ≡ ok deposit
  pub is_past : m.stopped_at + m.maximum_mortality + 1 < head
  pub holds : Holds archive (suc head - m.first_block) m.first_block found
  pub accounts : Accounts m treasury deposit 0 found (length m.transactions)

heads_same :
    (ss ss' : List EventSummary) (top : ℕ × String) (head : ℕ) (hash : String)
    → ◌≡◌ {A = Result (List EventSummary × ℕ × String)}
        (ok (ss, top.0, top.1))
        (ok (ss', head, hash))
    → top.0 ≡ head
heads_same ss ss' top head hash h = cc

same_length : (i j : ℕ) → not (i == j) ≡ false → i ≡ j
same_length i j h = ground arith

covering :
    ⦃codec : Ss58⦄ (archive : Archive) (r : PaymentRecord) (m : LegacyManifest) (top head count : ℕ)
    (treasury deposit : AccountId) (found : List Found)
    → top ≡ head
    → count ≡ length m.transactions
    → parse_ss58 m.treasury ≡ ok treasury
    → parse_ss58 r.address ≡ ok deposit
    → m.stopped_at + m.maximum_mortality + 1 < top
    → Holds archive (suc top - m.first_block) m.first_block found
    → Accounts m treasury deposit 0 found count
    → IsCovered archive r m head
covering archive r m top head count treasury deposit found same enough t d past holds accounts =
    record {
      treasury = treasury;
      deposit = deposit;
      found = found;
      of_treasury = t;
      of_deposit = d;
      is_past = rw (← same) past;
      holds = rw (← same) holds;
      accounts = rw (← enough) accounts;
    }

past_horizon :
    (stopped mortality horizon head : ℕ)
    → plus_one_of (checked_add stopped mortality) ≡ some horizon
    → not (ltb horizon head) ≡ false
    → stopped + mortality + 1 < head
past_horizon stopped mortality horizon head h l = ground arith

verify_legacy_archive-IsCovered :
    ⦃codec : Ss58⦄ (archive : Archive) (r : PaymentRecord) (m : LegacyManifest)
    (ss : List EventSummary) (head : ℕ) (hash : String)
    → verify_legacy_archive archive r m ≡ ok (ss, head, hash)
    → IsCovered archive r m head
unfolding verify_legacy_archive
verify_legacy_archive-IsCovered archive r m ss head hash h =
    let (_, h1) =
      check_ok (fail_if (not (archive.genesis_hash =? m.genesis_hash)) bad_archive) _ _ h in
    let (top, _, h2) = bind_ok archive.finalized_head _ _ h1 in
    let (horizon, sum, h3) =
      bind_ok (ok_or (plus_one_of (checked_add m.stopped_at m.maximum_mortality)) bad_archive) _ _
        h2 in
    let (later, h4) = check_ok (fail_if (not (ltb horizon top.0)) bad_archive) _ _ h3 in
    let (_, h5) =
      check_ok
        (fail_if (ltb top.0 m.first_block || ltb 100_000 (top.0 - m.first_block)) bad_archive) _ _
        h4 in
    let (treasury, of_treasury, h6) = bind_ok (parse_ss58 m.treasury) _ _ h5 in
    let (deposit, of_deposit, h7) = bind_ok (parse_ss58 r.address) _ _ h6 in
    let (_, _, h8) = bind_ok (archive.at_block (m.first_block - 1)) _ _ h7 in
    let (t, _, h9) = bind_ok (archive.nonce_at (m.first_block - 1) treasury) _ _ h8 in
    let (d, _, h10) = bind_ok (archive.nonce_at (m.first_block - 1) deposit) _ _ h9 in
    let start : Scan = record {
      next_nonces = put_nonce deposit d (put_nonce treasury t no_nonces);
      summaries = [];
    } in
    let (scan, scanned, h11) =
      bind_ok (scan_from m treasury deposit archive (suc top.0 - m.first_block) m.first_block start)
        _ _ h10 in
    let (count, h12) =
      check_ok (fail_if (not (length scan.summaries == length m.transactions)) bad_archive) _ _
        h11 in
    let (current, _, h13) = bind_ok (archive.block_hash_at top.0) _ _ h12 in
    let (_, h14) = check_ok (fail_if (not (has_hash_at current top.1)) bad_archive) _ _ h13 in
    let same_head = heads_same _ ss top head hash h14 in
    let enough : length scan.summaries ≡ length m.transactions =
      same_length _ _ (fail_if_ok _ _ count) in
    let (found, holds, accounts) =
      scan_from-Accounts m treasury deposit archive _ _ start scan scanned in
    let past = past_horizon _ _ horizon top.0 (ok_or_ok _ _ _ sum) (fail_if_ok _ _ later) in
    covering archive r m top.0 head (length scan.summaries) treasury deposit found same_head enough
      of_treasury of_deposit past holds accounts

-- A verified recovery rests on three checks: the record is free and the manifest is complete for it; the
-- manifest accounts for every extrinsic of both signers in all the finalized blocks from its first one to a head
-- past the time that a transaction lives; and its calls add up to the accounting of the record, which
-- gets the identity and the policy of the manifest and is not changed otherwise.
pub verify-IsCovered :
    ⦃codec : Ss58⦄ (archive : Archive) (r : PaymentRecord) (m : LegacyManifest)
    (next : PaymentRecord) (report : RecoveryReport)
    → verify archive r m ≡ ok (next, report)
    → IsComplete r m
      × IsCovered archive r m report.finalized_block
      × IsReproduced r m.transactions
      × (next ≡ imported r m)
unfolding verify
verify-IsCovered archive r m next report h =
    let (valid, h1) = check_ok (validate_manifest r m) _ _ h in
    let (scanned, covered, h2) = bind_ok (verify_legacy_archive archive r m) _ _ h1 in
    let (same, made, reproduced) =
      replay-IsReproduced r m scanned.0 scanned.1 scanned.2 next report h2 in
    (
      validate_manifest-IsComplete r m valid,
      rw made (verify_legacy_archive-IsCovered archive r m scanned.0 scanned.1 scanned.2 covered),
      reproduced,
      same,
    )
