-- ===== src/Store/Once.antt =====
-- `recover_legacy` of src/store.rs imports a payment once, whatever the store is used for in between.
use buyback.Base.{ℕ, Option, none, some, false, ◌≡◌, refl, arith, inl, inr, sym, ◌∙◌, ap, string_eq}
use buyback.State.{JobIdentity, PaymentRecord}
use buyback.Error.{ok, is_ok, Result-cases}
use buyback.Store.{Row, Db, find_row}
use buyback.Store.Recover.{RecoveryDb, recover_legacy}
use buyback.Store.Recovers.{Recovers, Recovers-find_row, recover_legacy-Recovers, recovered_record}
use buyback.Store.Sqlite.{get}
use buyback.Store.History.{History}
use buyback.Store.Swap.{History-Keeps}
use buyback.Keys.{Ss58}
use buyback.Recovery.{LegacyManifest, RecoveryReport}
use buyback.Recovery.Archive.{Archive}

-- The record of the job right after a recovery, if its version column was that of the record.
Recovers-get :
    (db db' : Db) (m : LegacyManifest) (now : ℕ) (row : Row) (done : Recovers db m now db')
    → find_row m.job db.payments ≡ some row
    → row.version ≡ row.record'.version
    → get db' m.job ≡ some (recovered_record done.row.record' m now)
unfolding get
Recovers-get db db' m now row done found column =
    ground (arith, Recovers-find_row db db' m now done m.job, done.found)

-- A recovery finds a record without an identity.
Recovers-fresh :
    (db db' : Db) (m : LegacyManifest) (now : ℕ) (r : PaymentRecord)
    → Recovers db m now db'
    → get db m.job ≡ some r
    → r.identity ≡ none
unfolding get
Recovers-fresh db db' m now r done h =
    let fresh = done.is_complete.unresolved_free.0 in
    let same : done.row.record' ≡ r = ground (arith, done.found) in
    ap (λ (x : PaymentRecord). x.identity) (sym same) ∙ fresh

identity_twice : (i : JobIdentity) → ◌≡◌ {A = Option JobIdentity} (some i) none → ⊥
identity_twice i h = cc

-- A job is recovered once. After a recovery, from a row whose version column is that of its record, and
-- after any use of the store since, the same job is refused with every manifest and archive and at every
-- later time.
pub recover_legacy_once :
    ⦃codec : Ss58⦄ (x x' y : RecoveryDb) (archive archive' : Archive) (m m' : LegacyManifest)
    (now now' : ℕ) (report : RecoveryReport) (row : Row)
    → find_row m.job x.tables.payments ≡ some row
    → row.version ≡ row.record'.version
    → recover_legacy x archive m now ≡ ok (report, x')
    → History x'.tables y.tables
    → m'.job ≡ m.job
    → is_ok (recover_legacy y archive' m' now') ≡ false
recover_legacy_once x x' y archive archive' m m' now now' report row found column h run same =
    let done = recover_legacy-Recovers x archive m now report x' h in
    let here = Recovers-get x.tables x'.tables m now row done found column in
    let (kept, there, next) =
      History-Keeps m.job (recovered_record done.row.record' m now) run here in
    let owned = next.identity (λ e. identity_twice _ e) in
    elim (Result-cases (recover_legacy y archive' m' now')) [
      | inl (e, failed) ↦ rw failed refl
      | inr (again, worked) ↦
          let second = recover_legacy-Recovers y archive' m' now' again.0 again.1 worked in
          absurd (
            identity_twice _ (
              sym owned
              ∙ Recovers-fresh y.tables again.1.tables m' now' kept second (rw same there)))
    ]
