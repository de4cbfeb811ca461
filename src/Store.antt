-- ===== src/Store.antt =====
-- src/store.rs: persistence of the payment records. This module has what both stores share: the
-- tables, and the migration of a legacy policy. Child modules: Sqlite (the operations of
-- `SqliteStore`), File (`FileStore`), Any (a boxed store), Recover (`recover_legacy`), Ledger (what the
-- tables promise), Rows (lemmas on the tables), Update, Fence, History, Swap, Refines, Mirror, Lists,
-- Shows, Writes, Once (proofs).
pub mod Sqlite
mod Rows
pub mod Update
pub mod Fence
pub mod History
pub mod Swap
pub mod File
pub mod Mirror
pub mod Recover
pub mod Recovers
pub mod Versions
pub mod Journals
pub mod Once
pub mod Any
pub mod Lists
pub mod Shows
pub mod Writes
mod WriteTests
pub mod Ledger
pub mod Refines
mod RecoverTests
mod Tests
use buyback.Base.{
  ℕ, suc, String, Bool, true, false, List, [], ◌∷◌, Option, none, some, ◌&&◌, ◌||◌, not, ◌=?◌,
  string_eq, is_some, is_none, ◌==◌, length, checked_add, if◌then◌else◌,
}
use buyback.Chain.{PendingTx}
use buyback.State.{PaymentState, PaymentRecord, BuybackBudget}
use buyback.State.Budget.{validate}
use buyback.Error.{Error, Result, ok, err, ◌>>=◌, ◌>>◌, fail_if, ok_or}
use buyback.Keys.{Ss58}

-- A row of the table `payments`. The numbers are the 64 bits of SQLite's INTEGER.
pub record Row : Type 0 where
  pub id : String
  pub state : String
  pub version : ℕ
  pub created_at : ℕ
  pub record' : PaymentRecord

-- A row of the table `signer_reservations`.
pub record Reservation : Type 0 where
  pub signer : String
  pub job : String
  pub token : String

pub record Db : Type 0 where
  pub payments : List Row
  pub reservations : List Reservation

-- `SELECT … FROM payments WHERE id=?1`
unfoldable pub find_row : String → List Row → Option Row
find_row id [] = none
find_row id (row ∷ rows) = if row.id =? id then some row else find_row id rows

-- `json_extract(record,'$.pending.signer')=?1`
abbrev pub is_pending_signer : String → Option PendingTx → Bool
is_pending_signer signer none = false
is_pending_signer signer (some p) = p.signer =? signer

-- `EXISTS(SELECT 1 FROM payments WHERE json_extract(record,'$.pending.signer')=?1)`
unfoldable pub has_journal : String → List Row → Bool
has_journal signer [] = false
has_journal signer (row ∷ rows) =
    is_pending_signer signer row.record'.pending || has_journal signer rows

-- `UPDATE payments SET state=?,version=?,record=? WHERE id=?`
unfoldable pub set_rows : String → String → ℕ → PaymentRecord → List Row → List Row
set_rows id state version rec [] = []
set_rows id state version rec (row ∷ rows) =
    (if row.id =? id then record row { state = state; version = version; record' = rec } else row)
    ∷ set_rows id state version rec rows

abbrev pub is_reservation : String → String → String → Reservation → Bool
is_reservation signer job token r = r.signer =? signer && r.job =? job && r.token =? token

-- `EXISTS(SELECT 1 FROM signer_reservations WHERE signer=? AND job=? AND token=?)`
unfoldable pub is_owned : String → String → String → List Reservation → Bool
is_owned signer job token [] = false
is_owned signer job token (r ∷ rs) =
    is_reservation signer job token r || is_owned signer job token rs

-- `EXISTS(SELECT 1 FROM signer_reservations WHERE job=?1)`
unfoldable pub has_job : String → List Reservation → Bool
has_job job [] = false
has_job job (r ∷ rs) = r.job =? job || has_job job rs

-- Whether a new row breaks `signer TEXT PRIMARY KEY` or `token TEXT NOT NULL UNIQUE`.
unfoldable pub is_taken : String → String → List Reservation → Bool
is_taken signer token [] = false
is_taken signer token (r ∷ rs) = r.signer =? signer || r.token =? token || is_taken signer token rs

-- `DELETE FROM signer_reservations WHERE signer=? AND job=? AND token=?`
unfoldable pub release : String → String → String → List Reservation → List Reservation
release signer job token [] = []
release signer job token (r ∷ rs) =
    let rest = release signer job token rs in
    if is_reservation signer job token r then rest else r ∷ rest

-- The number of rows that such a DELETE removes.
unfoldable pub released : String → String → String → List Reservation → ℕ
released signer job token [] = 0
released signer job token (r ∷ rs) =
    let rest = released signer job token rs in
    if is_reservation signer job token r then suc rest else rest

abbrev pub is_fresh : PaymentState → Bool
is_fresh PaymentState.pending = true
is_fresh PaymentState.detected = true
is_fresh _ = false

-- What a legacy record may not show if its policy is to be migrated.
abbrev pub has_evidence : PaymentRecord → Bool
has_evidence r =
    is_some r.auto_required
    || is_some r.buyback_budget
    || is_some r.pending
    || is_some r.quarantined
    || not (length r.txs == 0)
    || is_some r.buyback
    || r.buyback_done
    || not (r.funded_tao == 0)
    || not (r.swept_alpha == 0)
    || not (length r.swept_positions == 0)
    || not (r.consolidated == 0)
    || r.dust_returned
    || not (is_fresh r.state)

-- `if let Some(b) = &budget { b.validate()? }`
abbrev pub validate_budget : ⦃codec : Ss58⦄ → Option BuybackBudget → Result (Unit {0})
validate_budget none = ok tt
validate_budget (some b) = validate b

-- `migrated_policy`
unfoldable pub migrated_policy :
    ⦃codec : Ss58⦄ → PaymentRecord → ℕ → Option BuybackBudget → ℕ → Result PaymentRecord
migrated_policy r version budget now = do
  fail_if (not (r.version == version)) (Error.conflict r.id)
  fail_if (has_evidence r)
      (Error.store "legacy job has policy or execution evidence; manual reconciliation required")
  validate_budget budget
  next ← ok_or (checked_add r.version 1) (Error.store "version overflow")
  ok (record r {
    auto_required = some (is_some budget);
    buyback_budget = budget;
    version = next;
    updated_at = now;
  })
