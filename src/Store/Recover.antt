-- ===== src/Store/Recover.antt =====
-- `SqliteStore::recover_legacy` of src/store.rs: the import of a payment under the exclusive lock of the
-- database. It is the only operation that reads or writes the table `legacy_recoveries`, which
-- stands beside the others here. The scan reads the chain while the lock is held.
use buyback.Base.{
  ℕ, suc, ◌^◌, String, List, [], ◌∷◌, Option, Bool, true, false, ◌&&◌, ◌||◌, not, ◌=?◌, ◌==◌, ltb,
  string_eq, checked_add, if◌then◌else◌,
}
use buyback.Chain.{PendingTx}
use buyback.State.{PaymentRecord}
use buyback.Store.{Row, Reservation, Db, find_row, has_job, is_pending_signer}
use buyback.Error.{Error, Result, ok, ◌>>=◌, ◌>>◌, fail_if, ok_or}
use buyback.Keys.{Ss58}
use buyback.Recovery.{LegacyManifest, RecoveryReport}
use buyback.Recovery.Manifest.{validate_manifest}
use buyback.Recovery.Archive.{Archive}
use buyback.Recovery.Verify.{verify}

-- A row of the table `legacy_recoveries`.
pub record Recovered : Type 0 where
  pub job : String
  pub previous_version : ℕ
  pub manifest : LegacyManifest
  pub report : RecoveryReport

pub record RecoveryDb : Type 0 where
  pub tables : Db
  pub recoveries : List Recovered

-- `EXISTS(SELECT 1 FROM signer_reservations WHERE signer IN (?1,?2))`
unfoldable pub has_signer : (a b : String) → List Reservation → Bool
has_signer a b [] = false
has_signer a b (r ∷ rs) = r.signer =? a || r.signer =? b || has_signer a b rs

abbrev pub is_either_signer : (a b : String) → Option PendingTx → Bool
is_either_signer a b p = is_pending_signer a p || is_pending_signer b p

-- `EXISTS(SELECT 1 FROM payments WHERE pending.signer IN (?1,?2) OR quarantined.signer IN (?1,?2))`
unfoldable pub has_open_journal : (a b : String) → List Row → Bool
has_open_journal a b [] = false
has_open_journal a b (row ∷ rows) =
    is_either_signer a b row.record'.pending
    || is_either_signer a b row.record'.quarantined
    || has_open_journal a b rows

-- Whether somebody may still sign for one of the two signers.
unfoldable pub is_busy : Db → PaymentRecord → LegacyManifest → Bool
is_busy db r m =
    has_signer r.address m.treasury db.reservations
    || has_job r.id db.reservations
    || has_open_journal r.address m.treasury db.payments

-- `UPDATE payments SET version=?1,record=?2 WHERE id=?3 AND version=?4`
unfoldable pub set_version :
    String → (old : ℕ) → (version : ℕ) → PaymentRecord → List Row → List Row
set_version id old version rec [] = []
set_version id old version rec (row ∷ rows) =
    (if row.id =? id && row.version == old
      then record row { version = version; record' = rec }
      else row)
    ∷ set_version id old version rec rows

-- The number of rows that the UPDATE changes.
unfoldable pub changed : String → (old : ℕ) → List Row → ℕ
changed id old [] = 0
changed id old (row ∷ rows) =
    let rest = changed id old rows in if row.id =? id && row.version == old then suc rest else rest

-- `PRIMARY KEY(job,previous_version)`
unfoldable pub has_recovery : String → ℕ → List Recovered → Bool
has_recovery job version [] = false
has_recovery job version (x ∷ xs) =
    (x.job =? job && x.previous_version == version) || has_recovery job version xs

-- `i64::try_from(n)`
abbrev pub fits_i64 : ℕ → Bool
fits_i64 n = ltb n (2 ^ 63)

abbrev pub out_of_range : Error
out_of_range = Error.store "out of range integral type conversion attempted"

-- The tables after the UPDATE and the INSERT.
abbrev pub recovered :
    RecoveryDb → LegacyManifest → (r next : PaymentRecord) → RecoveryReport → RecoveryDb
recovered db m r next applied = record {
  tables = record db.tables {
    payments = set_version next.id r.version next.version next db.tables.payments;
  };
  recoveries =
      (record { job = r.id; previous_version = r.version; manifest = m; report = applied })
      ∷ db.recoveries;
}

-- The second half of `recover_legacy`, from the record `r` and what `verify` returned.
unfoldable pub apply_recovery :
    RecoveryDb
    → LegacyManifest
    → (r verified : PaymentRecord) → RecoveryReport
    → (now : ℕ) → Result (RecoveryReport × RecoveryDb)
apply_recovery db m r verified report now = do
  version ← ok_or (checked_add verified.version 1) (Error.store "version overflow")
  let next = record verified { version = version; updated_at = now }
  let applied = record report { applied = true }
  fail_if (not (fits_i64 version) || not (fits_i64 r.version)) out_of_range
  fail_if (not (changed next.id r.version db.tables.payments == 1)) (Error.conflict r.id)
  fail_if (has_recovery r.id r.version db.recoveries) (
      Error.store
        "UNIQUE constraint failed: legacy_recoveries.job, legacy_recoveries.previous_version")
  ok (applied, recovered db m r next applied)

-- `recover_legacy`
unfoldable pub recover_legacy :
    ⦃codec : Ss58⦄
    → RecoveryDb
    → Archive
    → LegacyManifest
    → (now : ℕ) → Result (RecoveryReport × RecoveryDb)
unfolding apply_recovery
recover_legacy db archive m now = do
  row ← ok_or (find_row m.job db.tables.payments) (Error.store "Query returned no rows")
  let r = row.record'
  validate_manifest r m
  fail_if (is_busy db.tables r m)
      (Error.conflict "legacy recovery signers have unresolved ownership")
  (verified, report) ← verify archive r m
  apply_recovery db m r verified report now
