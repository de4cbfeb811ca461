-- ===== src/Store/Mirror.antt =====
-- The two stores of src/store.rs against each other: where no journal is involved, a directory of files
-- behaves as the tables of the database do.
use buyback.Base.{
  ℕ, ◌+◌, String, true, [], ◌∷◌, some, ◌=?◌, string_eq, ◌≡◌, arith, if◌then◌else◌, wrap_u64,
}
use buyback.State.{PaymentRecord}
use buyback.Error.{ok}
use buyback.Store.{Db}
use buyback.Store.Sqlite.{get, insert, update}
use buyback.Store.Update.{Updates-find_row, update-Updates, insert-find_row}
use buyback.Store.File.{Files, read, write, is_valid_id, insert_file, update_file}

pub read-write :
    (id j : String) (rec : PaymentRecord) (files : Files)
    → read j (write id rec files) ≡ (if id =? j then some rec else read j files)
unfolding read write
read-write id j rec [] = ground arith
read-write id j rec ((name, old) ∷ files) = ground (arith, read-write id j rec files)

-- Every payment is in the directory as it is in the tables.
abbrev pub Mirrors : Db → Files → Type 0
Mirrors db files = (id : String) → get db id ≡ read id files

-- A write that the database accepts is accepted by a directory that has what the tables hold.
pub update_file-write :
    (db : Db) (files : Files) (rec next : PaymentRecord) (now : ℕ) (db' : Db)
    → Mirrors db files
    → is_valid_id rec.id ≡ true
    → update db rec now ≡ ok (next, db')
    → update_file files rec now ≡ ok (next, write rec.id next files)
unfolding update_file get
update_file-write db files rec next now db' m v h =
    let u = update-Updates db rec now next db' h in
    let w : wrap_u64 (rec.version + 1) ≡ rec.version + 1 = omega (arith, u.in_range) in
    ground (arith, m rec.id, v, u.found, u.current, u.same_job, u.result, w)

-- While a directory shows what the tables hold, a write that the database accepts, of a record
-- whose id can name a file, is accepted by the directory with the same result, and it goes on
-- showing what the tables hold.
pub update_file-Mirrors :
    (db : Db) (files : Files) (rec next : PaymentRecord) (now : ℕ) (db' : Db)
    → Mirrors db files
    → is_valid_id rec.id ≡ true
    → update db rec now ≡ ok (next, db')
    → (files' : Files) × (update_file files rec now ≡ ok (next, files')) × Mirrors db' files'
unfolding get
update_file-Mirrors db files rec next now db' m v h =
    let u = update-Updates db rec now next db' h in
    (
      write rec.id next files,
      update_file-write db files rec next now db' m v h,
      λ j.
          ground
            (arith, m j, Updates-find_row db rec now next db' u j, read-write rec.id j next files),
    )

-- While a directory shows what the tables hold, a new record that the database accepts, with an
-- id that can name a file, is accepted by the directory, and it goes on showing what the tables
-- hold.
pub insert_file-Mirrors :
    (db : Db) (files : Files) (rec : PaymentRecord) (db' : Db)
    → Mirrors db files
    → is_valid_id rec.id ≡ true
    → insert db rec ≡ ok db'
    → (files' : Files) × (insert_file files rec ≡ ok files') × Mirrors db' files'
unfolding insert_file get insert
insert_file-Mirrors db files rec db' m v h = (
  write rec.id rec files,
  ground (arith, m rec.id, v),
  λ j. ground (arith, m j, insert-find_row db rec db' h j, read-write rec.id j rec files),
)
