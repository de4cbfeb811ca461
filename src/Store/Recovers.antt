-- ===== src/Store/Recovers.antt =====
-- `recover_legacy` of src/store.rs taken apart: what a successful recovery has checked, and the tables that
-- it leaves.
use buyback.Base.{
  ℕ, suc, String, List, [], ◌∷◌, Option, none, some, false, ◌≡◌, ◌≢◌, is_some, arith, inl, inr, ◌∙◌,
  ap, ◌=?◌, ◌==◌, string_eq, if◌then◌else◌, Option-cases,
}
use buyback.Chain.{PendingTx}
use buyback.State.{PaymentRecord}
use buyback.Error.{Error, ok, fail_if, ok_or, bind_ok, check_ok, fail_if_ok, ok_or_ok}
use buyback.Store.{Row, Db, find_row}
use buyback.Store.Fence.{IsFenced}
use buyback.Store.Recover.{RecoveryDb, is_busy, set_version, apply_recovery, recover_legacy}
use buyback.Keys.{Ss58}
use buyback.Recovery.{LegacyManifest, RecoveryReport}
use buyback.Recovery.Manifest.{validate_manifest, is_unresolved}
use buyback.Recovery.Audit.{IsComplete}
use buyback.Recovery.Import.{imported}
use buyback.Recovery.Archive.{Archive}
use buyback.Recovery.Verify.{verify}
use buyback.Recovery.Evidence.{verify-IsCovered}

-- The record that a recovery stores.
abbrev pub recovered_record : PaymentRecord → LegacyManifest → ℕ → PaymentRecord
recovered_record r m now = record (imported r m) { version = suc r.version; updated_at = now }

-- A row that the UPDATE may have written.
abbrev pub rewritten : ℕ → ℕ → PaymentRecord → Option Row → Option Row
rewritten old version rec none = none
rewritten old version rec (some row) =
    some (if row.version == old then record row { version = version; record' = rec } else row)

find_row-set_version :
    (id j : String) (old version : ℕ) (rec : PaymentRecord) (rows : List Row)
    → find_row j (set_version id old version rec rows)
      ≡ (if id =? j then rewritten old version rec (find_row j rows) else find_row j rows)
unfolding find_row set_version
find_row-set_version id j old version rec [] = ground arith
find_row-set_version id j old version rec (row ∷ rows) =
    ground (arith, find_row-set_version id j old version rec rows)

rewrite_rows :
    (rows rows' : List Row) (r verified : PaymentRecord) (m : LegacyManifest) (now : ℕ)
    → verified ≡ imported r m
    → rows'
      ≡ set_version verified.id r.version
          (suc verified.version)
          (record verified { version = suc verified.version; updated_at = now })
          rows
    → rows' ≡ set_version r.id r.version (suc r.version) (recovered_record r m now) rows
rewrite_rows rows rows' r verified m now same h =
    h
    ∙ ap
        (λ (v : PaymentRecord).
          set_version v.id r.version (suc v.version)
            (record v { version = suc v.version; updated_at = now }) rows)
        same

-- What a recovery that succeeds did to the tables.
pub record Recovers (db : Db) (m : LegacyManifest) (now : ℕ) (db' : Db) : Type 0 where
  pub row : Row
  pub found : find_row m.job db.payments ≡ some row
  pub is_free : is_busy db row.record' m ≡ false
  pub is_complete : IsComplete row.record' m
  pub same_policy :
      row.record'.auto_required ≢ none
      → (row.record'.auto_required ≡ some (is_some m.budget))
        × (row.record'.buyback_budget ≡ m.budget)
  pub same_reservations : db'.reservations ≡ db.reservations
  pub rows_after :
      db'.payments
      ≡ set_version row.record'.id row.record'.version
          (suc row.record'.version)
          (recovered_record row.record' m now)
          db.payments

-- The payments after the second half.
payments_after :
    (db : RecoveryDb) (m : LegacyManifest) (r verified : PaymentRecord) (report : RecoveryReport)
    (now : ℕ) (report' : RecoveryReport) (db' : RecoveryDb)
    → apply_recovery db m r verified report now ≡ ok (report', db')
    → (db'.tables.reservations ≡ db.tables.reservations)
      × (db'.tables.payments
          ≡ set_version verified.id r.version
              (suc verified.version)
              (record verified { version = suc verified.version; updated_at = now })
              db.tables.payments)
unfolding apply_recovery
payments_after db m r verified report now report' db' h = ground arith

policy-is_unresolved :
    (r : PaymentRecord) (m : LegacyManifest)
    → is_unresolved r m ≡ false
    → r.auto_required ≢ none
    → (r.auto_required ≡ some (is_some m.budget)) × (r.buyback_budget ≡ m.budget)
unfolding is_unresolved
policy-is_unresolved r m h n = elim (Option-cases r.auto_required) [
  | inl e ↦ absurd (n e)
  | inr (b, e) ↦ ground (arith, e)
]

unresolved-validate :
    ⦃codec : Ss58⦄ (r : PaymentRecord) (m : LegacyManifest)
    → validate_manifest r m ≡ ok tt
    → is_unresolved r m ≡ false
unfolding validate_manifest
unresolved-validate r m h = ground arith

pub recover_legacy-Recovers :
    ⦃codec : Ss58⦄ (db : RecoveryDb) (archive : Archive) (m : LegacyManifest) (now : ℕ)
    (report : RecoveryReport) (db' : RecoveryDb)
    → recover_legacy db archive m now ≡ ok (report, db')
    → Recovers db.tables m now db'.tables
unfolding recover_legacy
recover_legacy-Recovers db archive m now report db' h =
    let (row, found, h1) =
      bind_ok (ok_or (find_row m.job db.tables.payments) (Error.store "Query returned no rows")) _ _
        h in
    let (valid, h2) = check_ok (validate_manifest row.record' m) _ _ h1 in
    let (free, h3) =
      check_ok
        (fail_if (is_busy db.tables row.record' m)
          (Error.conflict "legacy recovery signers have unresolved ownership"))
        _ _ h2 in
    let (verified, done, h4) = bind_ok (verify archive row.record' m) _ _ h3 in
    let (complete, _, _, same) =
      verify-IsCovered archive row.record' m verified.0 verified.1 done in
    let (kept, rows) = payments_after db m row.record' verified.0 verified.1 now report db' h4 in
    record {
      row = row;
      found = ok_or_ok _ _ _ found;
      is_free = fail_if_ok _ _ free;
      is_complete = complete;
      same_policy = policy-is_unresolved row.record' m (unresolved-validate row.record' m valid);
      same_reservations = kept;
      rows_after =
          rewrite_rows db.tables.payments db'.tables.payments row.record' verified.0 m now same
            rows;
    }

-- What a lookup finds after a recovery.
pub Recovers-find_row :
    (db db' : Db) (m : LegacyManifest) (now : ℕ) (done : Recovers db m now db') (j : String)
    → find_row j db'.payments ≡ (
        if m.job =? j
        then rewritten done.row.record'.version
            (suc done.row.record'.version)
            (recovered_record done.row.record' m now)
            (some done.row)
        else find_row j db.payments)
Recovers-find_row db db' m now done j =
    let r = done.row.record' in
    ap (find_row j) done.rows_after
    ∙ find_row-set_version r.id j r.version (suc r.version) (recovered_record r m now) db.payments
    ∙ ground (arith, done.is_complete.same_job.0, done.found)

-- A journal that the UPDATE leaves was there before, in the same job.
journal_before :
    (id j : String) (old version : ℕ) (rec : PaymentRecord) (rows : List Row) (row : Row)
    (p : PendingTx)
    → rec.pending ≡ none
    → find_row j (set_version id old version rec rows) ≡ some row
    → row.record'.pending ≡ some p
    → find_row j rows ≡ some row
journal_before id j old version rec rows row p free h e = elim (Option-cases (find_row j rows)) [
  | inl o ↦ ground (arith, find_row-set_version id j old version rec rows)
  | inr (before, o) ↦ ground (arith, find_row-set_version id j old version rec rows)
]

-- A recovery keeps the signer fence: it takes and frees no reservation, and it leaves every open
-- journal as it is.
pub recover_legacy-IsFenced :
    ⦃codec : Ss58⦄ (db : RecoveryDb) (archive : Archive) (m : LegacyManifest) (now : ℕ)
    (report : RecoveryReport) (db' : RecoveryDb)
    → recover_legacy db archive m now ≡ ok (report, db')
    → IsFenced db.tables
    → IsFenced db'.tables
recover_legacy-IsFenced db archive m now report db' h fence =
    let done = recover_legacy-Recovers db archive m now report db' h in
    let r = done.row.record' in
    record {
      unique = rw done.same_reservations fence.unique;
      fenced = λ id row p found pending.
          let found' : find_row id (
                set_version r.id r.version (suc r.version) (recovered_record r m now)
                  db.tables.payments)
              ≡ some row =
            rw (← done.rows_after) found in
          let before =
            fence.fenced id row p
              (journal_before r.id id r.version (suc r.version) (recovered_record r m now)
                db.tables.payments row p done.is_complete.unresolved_free.1 found' pending)
              pending in
          rw done.same_reservations before;
    }
