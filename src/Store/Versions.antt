-- ===== src/Store/Versions.antt =====
-- The column `version` of the payments (src/store.rs): over any use of the store it is the version of the
-- record in its row.
use mathlib.Core.Path.{subst}
use buyback.Base.{String, some, string_eq, ◌≡◌, sym, arith}
use buyback.Store.{Row, Db, find_row}
use buyback.Store.Update.{update-Updates, Updates-find_row, insert-find_row, migrate-rows}
use buyback.Store.Recovers.{Recovers-find_row, recover_legacy-Recovers}
use buyback.Store.Sqlite.{reserve, cancel_preparation}
use buyback.Store.History.{
  Uses, reserves, cancels, inserts, updates, migrates, recovers, History, opened, then_uses,
  empty_db,
}
use buyback.Keys.{Ss58}

abbrev pub IsVersioned : Db → Type 0
IsVersioned db =
    (id : String) (row : Row)
    → find_row id db.payments ≡ some row
    → row.version ≡ row.record'.version

pub empty-IsVersioned : IsVersioned empty_db
unfolding find_row
empty-IsVersioned id row h = cc

pub Uses-IsVersioned : ⦃codec : Ss58⦄ {db db' : Db} → Uses db db' → IsVersioned db → IsVersioned db'
unfolding reserve cancel_preparation
Uses-IsVersioned (reserves signer job token t version h) v id row e =
    v id row (ground (arith, h, e))
Uses-IsVersioned (cancels signer job token h) v id row e = v id row (ground (arith, h, e))
Uses-IsVersioned {db = db} {db' = db'} (inserts rec n h) v id row e =
    ground (arith, insert-find_row db rec db' h id, v id row)
Uses-IsVersioned {db = db} {db' = db'} (updates rec next now h) v id row e =
    let u = update-Updates db rec now next db' h in
    ground (arith, Updates-find_row db rec now next db' u id, v id row)
Uses-IsVersioned {db = db} {db' = db'} (migrates i version budget now next h) v id row e =
    let (old, found, valid, rows) = migrate-rows db i version budget now next db' h id in
    ground (arith, rows, v id row)
Uses-IsVersioned (recovers x x' archive m now report start h end) v id row e =
    subst IsVersioned end
      (λ id row e.
        let before = subst IsVersioned (sym start) v in
        let done = recover_legacy-Recovers x archive m now report x' h in
        ground (
          arith,
          Recovers-find_row x.tables x'.tables m now done id,
          before id row,
          before m.job done.row done.found,
        ))
      id row e

pub History-IsVersioned :
    ⦃codec : Ss58⦄ {db db' : Db} → History db db' → IsVersioned db → IsVersioned db'
History-IsVersioned opened v = v
History-IsVersioned (then_uses run step) v = Uses-IsVersioned step (History-IsVersioned run v)
