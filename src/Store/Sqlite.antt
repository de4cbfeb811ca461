-- ===== src/Store/Sqlite.antt =====
-- `SqliteStore` of src/store.rs, one function per method. Each runs in one transaction: an error
-- rolls it back, so it returns no new tables. Failures of the database itself (a poisoned lock, I/O)
-- are left out, and a record is stored as the value that its JSON text stands for. The clock and the
-- fresh uuid of a token are arguments.
use buyback.Base.{
  ℕ, ◌+◌, ◌%◌, ◌^◌, String, Bool, false, List, [], ◌∷◌, ◌++◌, Option, none, some, ◌&&◌, ◌||◌, not,
  ◌=?◌, string_eq, is_some, ◌==◌, ltb, checked_add, push_str, if◌then◌else◌, Eq, ℕ_discrete,
}
use buyback.Base.Sort.{sort_by}
use buyback.Chain.{PendingTx, pending_tx_eq}
use buyback.State.{
  PaymentState, PaymentRecord, BuybackBudget, as_str, budget_eq, option_bool_eq, identity_eq,
}
use buyback.Error.{Error, Result, ok, ◌>>=◌, ◌>>◌, fail_if, ok_or}
use buyback.Keys.{Ss58}
use buyback.Store.{
  Row, Reservation, Db, find_row, has_journal, set_rows, is_owned, has_job, is_taken, release,
  released, migrated_policy,
}

unfoldable pub Option-ℕ-discrete : Discrete (Option ℕ)
unfolding ℕ_discrete
Option-ℕ-discrete = hlevel ℕ_discrete

instance abbrev option_nat_eq : Eq (Option ℕ)
option_nat_eq = record { discrete = Option-ℕ-discrete }

-- `i64::try_from(n).ok()`
abbrev as_i64 : ℕ → Option ℕ
as_i64 n = if ltb n (2 ^ 63) then some n else none

abbrev version_column : Option Row → Option ℕ
version_column none = none
version_column (some row) = some row.version

-- The check of the job's version that `reserve` makes for a record.
abbrev check_version : Db → String → Option ℕ → Result (Unit {0})
check_version db job none = ok tt
check_version db job (some version) =
    fail_if (not (version_column (find_row job db.payments) =? as_i64 version)) (Error.conflict job)

-- `SqliteStore::reserve`
unfoldable pub reserve : Db → String → String → Option ℕ → String → Result (String × Db)
unfolding Option-ℕ-discrete
reserve db signer job version token = do
  check_version db job version
  fail_if (has_journal signer db.payments) (Error.conflict "unresolved signer journal")
  fail_if (is_taken signer token db.reservations)
      (Error.conflict (push_str "signer " (push_str signer " reserved")))
  let r : Reservation = record { signer = signer; job = job; token = token }
  ok (token, record db { reservations = r ∷ db.reservations })

-- `reserve_signer_for_record`
unfoldable pub reserve_signer_for_record :
    Db → String → PaymentRecord → String → Result (String × Db)
unfolding reserve
reserve_signer_for_record db signer rec token = reserve db signer rec.id (some rec.version) token

-- `reserve_signer`
unfoldable pub reserve_signer : Db → String → String → String → Result (String × Db)
unfolding reserve
reserve_signer db signer job token = reserve db signer job none token

-- Whether the journal of a job is an object in its stored record.
abbrev job_has_journal : Option Row → Bool
job_has_journal none = false
job_has_journal (some row) = is_some row.record'.pending

-- `cancel_preparation`
unfoldable pub cancel_preparation : Db → String → String → String → Result Db
cancel_preparation db signer job token = do
  let blocked = has_journal signer db.payments || job_has_journal (find_row job db.payments)
  let removed = if blocked then 0 else released signer job token db.reservations
  fail_if (not (removed == 1)) (Error.conflict "preparation token or pending journal changed")
  ok (record db { reservations = release signer job token db.reservations })

-- The row that an INSERT of a record writes.
abbrev pub new_row : PaymentRecord → Row
new_row rec = record {
  id = rec.id;
  state = as_str rec.state;
  version = rec.version;
  created_at = rec.created_at;
  record' = rec;
}

-- `insert`
unfoldable pub insert : Db → PaymentRecord → Result Db
insert db rec = do
  fail_if (is_some (find_row rec.id db.payments))
      (Error.store "UNIQUE constraint failed: payments.id")
  ok (record db { payments = db.payments ++ new_row rec ∷ [] })

abbrev pub record_of : Option Row → Option PaymentRecord
record_of none = none
record_of (some row) = some row.record'

-- `get`
unfoldable pub get : Db → String → Option PaymentRecord
get db id = record_of (find_row id db.payments)

-- The order of SQLite on INTEGER: the 64 bits as a signed number.
abbrev pub signed_order : ℕ → ℕ
signed_order n = (n + 2 ^ 63) % 2 ^ 64

abbrev pub is_wanted : List PaymentState → String → Bool
is_wanted [] state = false
is_wanted (s ∷ states) state = as_str s =? state || is_wanted states state

abbrev pub wanted_records : List PaymentState → List Row → List PaymentRecord
wanted_records states [] = []
wanted_records states (row ∷ rows) =
    if is_wanted states row.state
    then row.record' ∷ wanted_records states rows
    else wanted_records states rows

-- `list`
unfoldable pub list : Db → List PaymentState → List PaymentRecord
unfolding sort_by
list db states = wanted_records states (sort_by (λ row. signed_order row.created_at) db.payments)

-- A pending journal may be written only by the owner of its reservation.
unfoldable pub check_owner : Db → PaymentRecord → Option PendingTx → Result (Unit {0})
check_owner db rec none = ok tt
check_owner db rec (some p) = do
  token ← ok_or p.reservation (Error.store "legacy journal requires manual reconciliation")
  fail_if (not (is_owned p.signer rec.id token db.reservations))
      (Error.store "signer reservation mismatch")

-- The reservations after a write of `next` over a record with the journal `previous`.
unfoldable pub settle_journal :
    Db → String → (previous next : Option PendingTx) → Result (List Reservation)
settle_journal db id none next = ok db.reservations
settle_journal db id (some p) (some q) =
    fail_if (not (some q =? some p)) (Error.store "cannot replace unresolved journal")
    >> ok db.reservations
settle_journal db id (some p) none = do
  token ← ok_or p.reservation (Error.store "legacy journal requires manual reconciliation")
  fail_if (not (released p.signer id token db.reservations == 1))
      (Error.store "signer reservation mismatch")
  ok (release p.signer id token db.reservations)

-- The parts of a record that no update may change.
abbrev pub is_same_job : PaymentRecord → PaymentRecord → Bool
is_same_job a b =
    a.buyback_budget =? b.buyback_budget
    && a.auto_required =? b.auto_required
    && a.identity =? b.identity

-- `update`
unfoldable pub update : Db → PaymentRecord → ℕ → Result (PaymentRecord × Db)
update db rec now = do
  row ← ok_or (find_row rec.id db.payments) (Error.not_found rec.id)
  let previous = row.record'
  fail_if (not (previous.version == rec.version)) (Error.conflict rec.id)
  fail_if (not (is_same_job previous rec)) (Error.store "immutable job budget")
  check_owner db rec rec.pending
  reservations ← settle_journal db rec.id previous.pending rec.pending
  version ← ok_or (checked_add rec.version 1) (Error.store "version overflow")
  let next = record rec { version = version; updated_at = now }
  ok (
    next,
    record {
      payments = set_rows next.id (as_str next.state) next.version next db.payments;
      reservations = reservations;
    },
  )

-- `migrate_legacy_policy`
unfoldable pub migrate_legacy_policy :
    ⦃codec : Ss58⦄ → Db → String → ℕ → Option BuybackBudget → ℕ → Result (PaymentRecord × Db)
migrate_legacy_policy db id version budget now = do
  fail_if (has_job id db.reservations) (Error.conflict "job has a signer reservation")
  row ← ok_or (find_row id db.payments) (Error.store "Query returned no rows")
  next ← migrated_policy row.record' version budget now
  fail_if (not (ltb next.version (2 ^ 63)))
      (Error.store "out of range integral type conversion attempted")
  ok (next, record db { payments = set_rows id row.state next.version next db.payments })
