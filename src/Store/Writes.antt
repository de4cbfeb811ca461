-- ===== src/Store/Writes.antt =====
-- Any sequence of writes to `SqliteStore` and to `FileStore` (src/store.rs): from empty stores, the directory
-- keeps up with the tables.
use buyback.Base.{
  ℕ, String, true, List, [], ◌∷◌, map, Option, ◌≡◌, refl, ap, ◌∙◌, sym, arith, All, Bool-cases, inl,
  inr,
}
use buyback.Base.Select.{select-cons}
use mathlib.Core.List.{Perm}
use mathlib.Core.List.Perm
use mathlib.Core.Path.{subst}
use buyback.State.{PaymentState, PaymentRecord, BuybackBudget, as_str}
use buyback.Error.{Result, ok, err, ◌>>=◌, bind_ok, ok_same}
use buyback.Keys.{Ss58}
use buyback.Store.{Row, Db, find_row}
use buyback.Store.Sqlite.{get, list, insert, update, migrate_legacy_policy, is_wanted}
use buyback.Store.Update.{update-Updates, migrate-stored, migrated_policy-open}
use buyback.Store.File.{
  Files, is_valid_id, write, get_file, insert_file, update_file, migrate_file, contains_state,
  list_files,
}
use buyback.Store.Mirror.{update_file-write}
use buyback.Store.Lists.{wanted_rows, wanted_files, list-wanted, list_files-wanted}
use buyback.Store.Shows.{
  Shows, Shows-Mirrors, set_rows-Shows, append-Shows, entry_of, HasItsState, find_row-HasItsState,
  is_wanted-contains_state,
}
use buyback.Store.History.{empty_db}

-- A write of a client of the stores, at a time where one is noted.
pub data Write : Type 0 where
  adds : (rec : PaymentRecord) → Write
  saves : (rec : PaymentRecord) (now : ℕ) → Write
  decides : (id : String) (version : ℕ) (budget : Option BuybackBudget) (now : ℕ) → Write

abbrev pub id_of : Write → String
id_of (adds rec) = rec.id
id_of (saves rec now) = rec.id
id_of (decides id version budget now) = id

-- The tables or the files that an answer has.
abbrev stored {ℓ} : {A : Type 0} {S : Type ℓ} → Result (A × S) → Result S
stored r = r >>= λ p. ok p.1

module _ ⦃codec : Ss58⦄ where
  unfoldable pub write_db : Write → Db → Result Db
  write_db (adds rec) db = insert db rec
  write_db (saves rec now) db = stored (update db rec now)
  write_db (decides id version budget now) db =
      stored (migrate_legacy_policy db id version budget now)

  unfoldable pub write_files : Write → Files → Result Files
  write_files (adds rec) files = insert_file files rec
  write_files (saves rec now) files = stored (update_file files rec now)
  write_files (decides id version budget now) files =
      stored (migrate_file files id version budget now)

  unfoldable pub run_db : List Write → Db → Result Db
  run_db [] db = ok db
  run_db (w ∷ ws) db = write_db w db >>= run_db ws

  unfoldable pub run_files : List Write → Files → Result Files
  run_files [] files = ok files
  run_files (w ∷ ws) files = write_files w files >>= run_files ws

insert_file-new :
    (db db' : Db) (files : Files) (rec : PaymentRecord)
    → Shows db files
    → is_valid_id rec.id ≡ true
    → insert db rec ≡ ok db'
    → (files' : Files) × (insert_file files rec ≡ ok files') × Shows db' files'
unfolding insert insert_file get
insert_file-new db db' files rec s v h =
    let m = Shows-Mirrors db files s rec.id in
    (
      write rec.id rec files,
      ground (arith, m, v),
      append-Shows db db' files rec s (ground arith) (ground arith),
    )

migrate_file-decided :
    ⦃codec : Ss58⦄ (db db' : Db) (files : Files) (id : String) (version : ℕ)
    (budget : Option BuybackBudget) (now : ℕ) (next : PaymentRecord)
    → Shows db files
    → is_valid_id id ≡ true
    → migrate_legacy_policy db id version budget now ≡ ok (next, db')
    → (migrate_file files id version budget now ≡ ok (next, write id next files))
      × Shows db' (write id next files)
unfolding migrate_file get
migrate_file-decided db db' files id version budget now next s v h =
    let (old, found, decided, changed) = migrate-stored db id version budget now next db' h in
    let (_, _, _, _, same) = migrated_policy-open old.record' version budget now next decided in
    let m = Shows-Mirrors db files s id in
    let column = find_row-HasItsState id db.payments old s.states found in
    (
      ground (arith, m, v, found, decided),
      set_rows-Shows db db' files id old.state next old s found (column ∙ ap as_str (sym same))
          changed,
    )

stored_ok :
    {A S : Type 0} (r : Result (A × S)) (s : S) → stored r ≡ ok s → (a : A) × (r ≡ ok (a, s))
stored_ok (ok (a, t)) s h = (a, cc)
stored_ok (err e) s h = cc

update_file-saved :
    (db db' : Db) (files : Files) (rec next : PaymentRecord) (now : ℕ)
    → Shows db files
    → is_valid_id rec.id ≡ true
    → update db rec now ≡ ok (next, db')
    → (update_file files rec now ≡ ok (next, write rec.id next files))
      × Shows db' (write rec.id next files)
update_file-saved db db' files rec next now s v h =
    let u = update-Updates db rec now next db' h in
    let same : next.id ≡ rec.id = ap (λ (r : PaymentRecord). r.id) u.result in
    (
      update_file-write db files rec next now db' (Shows-Mirrors db files s) v h,
      subst (λ id. Shows db' (write id next files)) same
          (set_rows-Shows db db' files next.id (as_str next.state) next u.row s
            (ap (λ id. find_row id db.payments) same ∙ u.found) refl u.stored),
    )

module _ ⦃codec : Ss58⦄ where
  write_files-Shows :
      (w : Write) (db db' : Db) (files : Files)
      → Shows db files
      → is_valid_id (id_of w) ≡ true
      → write_db w db ≡ ok db'
      → (files' : Files) × (write_files w files ≡ ok files') × Shows db' files'
  unfolding write_db write_files
  write_files-Shows (adds rec) db db' files s v h = insert_file-new db db' files rec s v h
  write_files-Shows (saves rec now) db db' files s v h =
      let (next, written) = stored_ok (update db rec now) db' h in
      let (same, shows) = update_file-saved db db' files rec next now s v written in
      (write rec.id next files, ap stored same, shows)
  write_files-Shows (decides id version budget now) db db' files s v h =
      let (next, written) = stored_ok (migrate_legacy_policy db id version budget now) db' h in
      let (same, shows) =
        migrate_file-decided db db' files id version budget now next s v written in
      (write id next files, ap stored same, shows)

  run_files-Shows :
      (ws : List Write) (db db' : Db) (files : Files)
      → Shows db files
      → All (λ w. is_valid_id (id_of w) ≡ true) ws
      → run_db ws db ≡ ok db'
      → (files' : Files) × (run_files ws files ≡ ok files') × Shows db' files'
  unfolding run_db run_files
  run_files-Shows [] db db' files s v h = (files, refl, subst (λ d. Shows d files) (ok_same h) s)
  run_files-Shows (w ∷ ws) db db' files s v h =
      let (db1, first, rest) = bind_ok (write_db w db) _ _ h in
      let (files1, same, s1) = write_files-Shows w db db1 files s v.0 first in
      let (files', more, s') = run_files-Shows ws db1 db' files1 s1 v.1 rest in
      (files', rw same more, s')

-- The records that the two lists are made of.
wanted_entries :
    (states : List PaymentState) (rows : List Row)
    → All HasItsState rows
    → map (λ row. row.record') (wanted_rows states rows)
      ≡ map (λ p. p.1) (wanted_files states (map entry_of rows))
wanted_entries states [] a = refl
wanted_entries states (row ∷ rows) a =
    let same : is_wanted states row.state ≡ contains_state states row.record'.state =
      ap (is_wanted states) a.0 ∙ is_wanted-contains_state states row.record'.state in
    elim (Bool-cases (contains_state states row.record'.state)) [
      | inl e ↦
          rw
            (
              select-cons (λ r. is_wanted states r.state) row rows,
              select-cons (λ p. contains_state states p.1.state) (entry_of row) (map entry_of rows),
              same,
              e,
            )
            (ap (λ rest. row.record' ∷ rest) (wanted_entries states rows a.1))
      | inr e ↦
          rw
            (
              select-cons (λ r. is_wanted states r.state) row rows,
              select-cons (λ p. contains_state states p.1.state) (entry_of row) (map entry_of rows),
              same,
              e,
            )
            (wanted_entries states rows a.1)
    ]

list-perm :
    (states : List PaymentState) (db : Db) (files entries : Files)
    → Shows db files
    → Perm entries files
    → Perm (list db states) (list_files entries states)
list-perm states db files entries s p =
    let (rows, same, wanted, _) = list-wanted states db in
    let all = (list_files-wanted states entries files p).0 in
    let equal =
      wanted_entries states db.payments s.states
      ∙ ap (λ f. map (λ p. p.1) (wanted_files states f)) s.entries in
    rw same (Perm.trans (Perm.map (λ row. row.record') wanted) (rw equal (Perm.symm all)))

-- Whatever records are inserted, written and decided on in a database that was empty, under ids that can name
-- files, if the database accepts it all, so does an empty directory; then the two answer alike: a record
-- of an id is the same, and a list of the payments in given states has the same records, in whatever order
-- the directory is read.
pub run_db-run_files :
    ⦃codec : Ss58⦄ (ws : List Write) (db : Db)
    → All (λ w. is_valid_id (id_of w) ≡ true) ws
    → run_db ws empty_db ≡ ok db
    → (files : Files) × (run_files ws [] ≡ ok files)
      × ((id : String) → is_valid_id id ≡ true → get_file files id ≡ ok (get db id))
      × ((states : List PaymentState) (entries : Files)
          → Perm entries files
          → Perm (list db states) (list_files entries states))
unfolding get_file
run_db-run_files ws db v h =
    let (files, same, s) =
      run_files-Shows ws empty_db db [] (record { entries = refl; states = tt; unique = tt }) v h in
    (
      files,
      same,
      λ id valid. rw (valid, Shows-Mirrors db files s id) refl,
      λ states entries p. list-perm states db files entries s p,
    )
