-- ===== src/Store/History.antt =====
-- Any use of `SqliteStore` (src/store.rs), by any number of processes, as a history of operations: the
-- signer fence holds over all of it.
use buyback.Base.{
  ℕ, String, true, [], Option, none, some, string_eq, ◌≡◌, sym, arith, inl, inr, Option-cases,
}
use mathlib.Core.Path.{subst}
use buyback.Chain.{PendingTx}
use buyback.State.{PaymentRecord, BuybackBudget}
use buyback.Error.{ok}
use buyback.Store.{Db, find_row, is_owned}
use buyback.Store.Rows.{is_owned_unique}
use buyback.Store.Update.{update-Updates}
use buyback.Keys.{Ss58}
use buyback.Store.Sqlite.{reserve, cancel_preparation, insert, update, migrate_legacy_policy}
use buyback.Recovery.{LegacyManifest, RecoveryReport}
use buyback.Recovery.Archive.{Archive}
use buyback.Store.Recover.{RecoveryDb, recover_legacy}
use buyback.Store.Recovers.{recover_legacy-IsFenced}
use buyback.Store.Fence.{
  IsFenced, Updates-IsFenced, reserve-IsFenced, cancel_preparation-IsFenced, insert-IsFenced,
  migrate_legacy_policy-IsFenced,
}

-- One operation of the store, by any of the processes that share it. `insert` is called with
-- records that have no journal only (`create_payment`, `create_sweep_job`).
pub data Uses ⦃codec : Ss58⦄ (db db' : Db) : Type 0 where
  reserves :
      (signer job token t : String) (version : Option ℕ)
      → reserve db signer job version token ≡ ok (t, db')
      → Uses db db'
  cancels :
      (signer job token : String) → cancel_preparation db signer job token ≡ ok db' → Uses db db'
  inserts : (rec : PaymentRecord) → rec.pending ≡ none → insert db rec ≡ ok db' → Uses db db'
  updates : (rec next : PaymentRecord) (now : ℕ) → update db rec now ≡ ok (next, db') → Uses db db'
  migrates :
      (id : String) (version : ℕ) (budget : Option BuybackBudget) (now : ℕ) (next : PaymentRecord)
      → migrate_legacy_policy db id version budget now ≡ ok (next, db')
      → Uses db db'
  recovers :
      (x x' : RecoveryDb) (archive : Archive) (m : LegacyManifest) (now : ℕ)
      (report : RecoveryReport)
      → x.tables ≡ db
      → recover_legacy x archive m now ≡ ok (report, x')
      → x'.tables ≡ db'
      → Uses db db'

-- Every operation of the store (an insert being of a record without a journal), the recovery of a legacy
-- payment included, keeps every unresolved journal fenced by a reservation of its signer, and every signer
-- reserved at most once.
pub Uses-IsFenced : ⦃codec : Ss58⦄ {db db' : Db} → Uses db db' → IsFenced db → IsFenced db'
Uses-IsFenced {db = db} {db' = db'} (reserves signer job token t version h) f =
    reserve-IsFenced db signer job version token t db' h f
Uses-IsFenced {db = db} {db' = db'} (cancels signer job token h) f =
    cancel_preparation-IsFenced db signer job token db' h f
Uses-IsFenced {db = db} {db' = db'} (inserts rec n h) f = insert-IsFenced db rec db' h n f
Uses-IsFenced {db = db} {db' = db'} (updates rec next now h) f =
    Updates-IsFenced db rec now next db' (update-Updates db rec now next db' h) f
Uses-IsFenced {db = db} {db' = db'} (migrates id version budget now next h) f =
    migrate_legacy_policy-IsFenced db id version budget now next db' h f
Uses-IsFenced (recovers x x' archive m now report start h end) f =
    subst IsFenced end
      (recover_legacy-IsFenced x archive m now report x' h (subst IsFenced (sym start) f))

-- Any number of operations, in any order.
pub data History ⦃codec : Ss58⦄ (db : Db) : Db → Type 0 where
  opened : History db db
  then_uses : {db' db'' : Db} → History db db' → Uses db' db'' → History db db''

abbrev pub empty_db : Db
empty_db = record { payments = []; reservations = [] }

pub empty-IsFenced : IsFenced empty_db
unfolding find_row
empty-IsFenced = record { unique = tt; fenced = λ id row p hr hp. cc }

pub History-IsFenced : ⦃codec : Ss58⦄ {db db' : Db} → History db db' → IsFenced db → IsFenced db'
History-IsFenced opened f = f
History-IsFenced (then_uses run step) f = Uses-IsFenced step (History-IsFenced run f)

abbrev pub pending_of : String → Db → Option PendingTx
pending_of id db = elim (find_row id db.payments) [ none ↦ none | some row ↦ row.record'.pending ]

fenced_job :
    (db : Db) (id : String) (p : PendingTx)
    → IsFenced db
    → pending_of id db ≡ some p
    → (t : String) × (p.reservation ≡ some t) × (is_owned p.signer id t db.reservations ≡ true)
fenced_job db id p f h = elim (Option-cases (find_row id db.payments)) [
  | inl e ↦ ground (arith, e)
  | inr (row, e) ↦ elim (Option-cases p.reservation) [
    | inl e' ↦ ground (arith, e, e', f.fenced id row p)
    | inr (t, e') ↦ (t, e', ground (arith, e, e', f.fenced id row p))
  ]
]

-- However the store has been used by its operations since it was empty (records being inserted
-- without a journal), two jobs with unresolved journals of one signer are the same job.
pub one_journal_per_signer :
    ⦃codec : Ss58⦄ {db : Db} (i j : String) (p q : PendingTx)
    → History empty_db db
    → pending_of i db ≡ some p
    → pending_of j db ≡ some q
    → p.signer ≡ q.signer
    → i ≡ j
one_journal_per_signer {db = db} i j p q run hp hq same =
    let f = History-IsFenced run empty-IsFenced in
    let (t, _, hi) = fenced_job db i p f hp in
    let (u, _, hj) = fenced_job db j q f hq in
    (is_owned_unique p.signer i j t u db.reservations f.unique hi (rw same hj)).0
