-- ===== src/Store/RecoverTests.antt =====
-- A run of `recover_legacy` (src/store.rs), and its theorems on it.
use buyback.Base.{◌+◌, ◌≡◌, ℕ_discrete, refl, some, true, false, String-discrete}
use buyback.Error.{ok, is_ok}
use buyback.State.{
  PaymentRecord, as_str, BuybackBudget-discrete, Option-Bool-discrete, JobIdentity-discrete,
}
use buyback.Store.{find_row, has_job, set_rows}
use buyback.Store.Sqlite.{new_row, update, check_owner, settle_journal}
use buyback.Store.Recover.{
  RecoveryDb, recovered, apply_recovery, changed, has_recovery, is_busy, has_signer,
  has_open_journal, recover_legacy, set_version,
}
use buyback.Store.Recovers.{recovered_record}
use buyback.Store.Once.{recover_legacy_once}
use buyback.Store.History.{updates, opened, then_uses}
use buyback.Recovery.{RecoveryReport}
use buyback.Recovery.Import.{imported, report_of}
use buyback.Recovery.Tests.{manifest_is_valid, verified}
use buyback.Fixtures.{codec}
use buyback.Fixtures.Legacy.{legacy_payment, manifest, archive, legacy_db}

abbrev applied : RecoveryReport
applied = record (report_of legacy_payment manifest 27 "top") { applied = true }

abbrev stored : PaymentRecord
stored = recovered_record legacy_payment manifest 1000

abbrev after : RecoveryDb
after = recovered legacy_db manifest legacy_payment stored applied

the_row : find_row "a" legacy_db.tables.payments ≡ some (new_row legacy_payment)
unfolding find_row String-discrete
the_row = refl

nobody_signs : is_busy legacy_db.tables legacy_payment manifest ≡ false
unfolding is_busy has_signer has_job has_open_journal String-discrete
nobody_signs = refl

it_applies :
    apply_recovery legacy_db manifest legacy_payment
      (imported legacy_payment manifest)
      (report_of legacy_payment manifest 27 "top")
      1000
    ≡ ok (applied, after)
unfolding apply_recovery changed has_recovery String-discrete
it_applies = refl

recovers : recover_legacy legacy_db archive manifest 1000 ≡ ok (applied, after)
unfolding recover_legacy
recovers = rw (the_row, manifest_is_valid, nobody_signs, verified) it_applies

-- The engine has noted an error on the recovered payment since.
abbrev noted : PaymentRecord
noted = record stored { last_error = some "node down" }

abbrev noted_next : PaymentRecord
noted_next = record noted { version = noted.version + 1; updated_at = 1500 }

abbrev later : RecoveryDb
later = record after {
  tables = record after.tables {
    payments =
        set_rows "a" (as_str noted.state) noted_next.version noted_next after.tables.payments;
  };
}

notes : update after.tables noted 1500 ≡ ok (noted_next, later.tables)
unfolding update find_row set_rows set_version check_owner settle_journal String-discrete ℕ_discrete
    BuybackBudget-discrete Option-Bool-discrete JobIdentity-discrete
notes = refl

recover_legacy_once_example : is_ok (recover_legacy later archive manifest 2000) ≡ false
recover_legacy_once_example =
    recover_legacy_once legacy_db after later archive archive manifest manifest 1000 2000 applied
      (new_row legacy_payment) the_row refl recovers
      (then_uses opened (updates noted noted_next 1500 notes)) refl
