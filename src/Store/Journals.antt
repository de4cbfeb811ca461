-- ===== src/Store/Journals.antt =====
-- What becomes of an open journal while `SqliteStore` of src/store.rs is used: it stays as it is until an
-- update of its job closes it.
use buyback.Base.{
  ℕ, String, Option, none, some, String-discrete, Option-cases, string_eq, ◌≡◌, sym, arith, inl,
  inr,
}
use mathlib.Core.Path.{subst}
use buyback.Chain.{PendingTx}
use buyback.Error.{ok}
use buyback.Keys.{Ss58}
use buyback.State.{PaymentRecord, BuybackBudget}
use buyback.Store.{Db, find_row}
use buyback.Store.History.{
  Uses, reserves, cancels, inserts, updates, migrates, recovers, History, opened, then_uses,
  pending_of,
}
use buyback.Store.Recovers.{Recovers, Recovers-find_row, recover_legacy-Recovers}
use buyback.Store.Sqlite.{
  reserve, cancel_preparation, insert, update, migrate_legacy_policy, settle_journal,
}
use buyback.Store.Update.{
  update-Updates, Updates-find_row, insert-find_row, migrate-rows, migrated_policy-bare,
}

-- An update of the job that closes its journal.
pub record Closes (job : String) (p : PendingTx) (db db' : Db) : Type 0 where
  pub written : PaymentRecord
  pub result : PaymentRecord
  pub now : ℕ
  pub is_update : update db written now ≡ ok (result, db')
  pub same_job : written.id ≡ job
  pub was_open : pending_of job db ≡ some p
  pub is_closed : written.pending ≡ none

-- The journal is as it was, or it was until an update closed it.
pub data Since ⦃codec : Ss58⦄ (job : String) (p : PendingTx) (db db' : Db) : Type 0 where
  kept : pending_of job db' ≡ some p → Since job p db db'
  closed : (x x' : Db) → History db x → Closes job p x x' → History x' db' → Since job p db db'

-- What one operation does to an open journal.
pub data Leaves (job : String) (p : PendingTx) (db db' : Db) : Type 0 where
  stays : pending_of job db' ≡ some p → Leaves job p db db'
  closes : Closes job p db db' → Leaves job p db db'

settle-open :
    (db : Db) (id : String) (p : PendingTx) (q : PendingTx) (rs : _)
    → settle_journal db id (some p) (some q) ≡ ok rs
    → some q ≡ some p
unfolding settle_journal
settle-open db id p q rs h = ground arith

module _ (job : String) (p : PendingTx) (db db' : Db) (open' : pending_of job db ≡ some p) where
  insert-Leaves : (rec : PaymentRecord) → insert db rec ≡ ok db' → Leaves job p db db'
  unfolding insert
  insert-Leaves rec h = elim (Option-cases (find_row job db.payments)) [
    | inl e ↦ absurd (ground (arith, e))
    | inr (row, e) ↦ stays (ground (arith, insert-find_row db rec db' h job, e))
  ]

  update-Leaves :
      (rec next : PaymentRecord) (now : ℕ)
      → update db rec now ≡ ok (next, db')
      → Leaves job p db db'
  update-Leaves rec next now h =
      let u = update-Updates db rec now next db' h in
      let rows = Updates-find_row db rec now next db' u job in
      elim (String-discrete rec.id job) [
        | no n ↦ stays (ground (arith, rows))
        | yes e ↦ elim (Option-cases rec.pending) [
          | inl done ↦ closes (record {
            written = rec;
            result = next;
            now = now;
            is_update = h;
            same_job = e;
            was_open = open';
            is_closed = done;
          })
          | inr (q, some_q) ↦
              let before : u.row.record'.pending ≡ some p = ground (arith, u.found, e) in
              let same : some q ≡ some p =
                settle-open db rec.id p q db'.reservations (rw (← before, ← some_q) u.settles) in
              stays (ground (arith, rows, u.result, some_q, same))
        ]
      ]

  migrate-Leaves :
      ⦃codec : Ss58⦄ (id : String) (version : ℕ) (budget : Option BuybackBudget) (now : ℕ)
      (next : PaymentRecord)
      → migrate_legacy_policy db id version budget now ≡ ok (next, db')
      → Leaves job p db db'
  migrate-Leaves id version budget now next h =
      let (old, found, valid, rows) = migrate-rows db id version budget now next db' h job in
      let bare = migrated_policy-bare old.record' version budget now next valid in
      elim (String-discrete id job) [
        | no n ↦ stays (ground (arith, rows))
        | yes e ↦ absurd (ground (arith, found, bare, e))
      ]

  recovery-Leaves : (m : _) (now : ℕ) → Recovers db m now db' → Leaves job p db db'
  recovery-Leaves m now done =
      let rows = Recovers-find_row db db' m now done job in
      let bare = done.is_complete.unresolved_free.1 in
      elim (String-discrete m.job job) [
        | no n ↦ stays (ground (arith, rows))
        | yes e ↦ absurd (ground (arith, done.found, bare, e))
      ]

pub Uses-Leaves :
    ⦃codec : Ss58⦄ (job : String) (p : PendingTx) {db db' : Db}
    → Uses db db'
    → pending_of job db ≡ some p
    → Leaves job p db db'
unfolding reserve cancel_preparation
Uses-Leaves job p (reserves signer j token t version h) o = stays (ground (arith, h, o))
Uses-Leaves job p (cancels signer j token h) o = stays (ground (arith, h, o))
Uses-Leaves job p {db = db} {db' = db'} (inserts rec n h) o = insert-Leaves job p db db' o rec h
Uses-Leaves job p {db = db} {db' = db'} (updates rec next now h) o =
    update-Leaves job p db db' o rec next now h
Uses-Leaves job p {db = db} {db' = db'} (migrates id version budget now next h) o =
    migrate-Leaves job p db db' o id version budget now next h
Uses-Leaves job p {db' = db'} (recovers x x' archive m now report start h end) o =
    subst (λ db. Leaves job p db db') start
      (subst (λ db'. Leaves job p x.tables db') end
        (recovery-Leaves job p x.tables x'.tables
          (subst (λ db. pending_of job db ≡ some p) (sym start) o) m now
          (recover_legacy-Recovers x archive m now report x' h)))

Leaves-Since :
    ⦃codec : Ss58⦄ (job : String) (p : PendingTx) {db x x' : Db}
    → History db x
    → Leaves job p x x'
    → Since job p db x'
Leaves-Since job p run (stays o) = kept o
Leaves-Since job p {x = x} {x' = x'} run (closes c) = closed x x' run c opened

-- However the store is used from then on, an open journal of a job is still in the tables as it was, or
-- it was until an update of that job closed it.
pub History-Since :
    ⦃codec : Ss58⦄ (job : String) (p : PendingTx) {db db' : Db}
    → History db db'
    → pending_of job db ≡ some p
    → Since job p db db'
History-Since job p opened o = kept o
History-Since job p (then_uses run step) o = elim (History-Since job p run o) [
  | kept k ↦ Leaves-Since job p run (Uses-Leaves job p step k)
  | closed x x' a c b ↦ closed x x' a c (then_uses b step)
]
