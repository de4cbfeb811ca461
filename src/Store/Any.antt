-- ===== src/Store/Any.antt =====
-- A `Box<dyn Store>` of src/store.rs: the store that a specification names, and what each method of the trait
-- does on it. `FileStore` has the defaults of the trait where it does not say otherwise, and so cannot sign.
use buyback.Base.{ℕ, String, List, Option, none, some, strip_prefix}
use buyback.State.{PaymentState, PaymentRecord, BuybackBudget}
use buyback.Error.{Error, Result, ok, err, ◌>>=◌}
use buyback.Keys.{Ss58}
use buyback.Store.{Db}
use buyback.Store.Sqlite.{
  reserve_signer_for_record, reserve_signer, cancel_preparation, insert, get, list, update,
  migrate_legacy_policy,
}
use buyback.Store.File.{Files, get_file, insert_file, list_files, update_file, migrate_file}

pub data AnyStore : Type 0 where
  on_files : Files → AnyStore
  on_tables : Db → AnyStore

-- What `FileStore::open` and `SqliteStore::open` find at a path.
pub record Disk : Type 0 where
  pub open_dir : (dir : String) → Result Files
  pub open_database : (path : String) → Result Db

abbrev without_prefix : String → Option String → String
without_prefix spec none = spec
without_prefix spec (some path) = path

abbrev open_other : Disk → (spec : String) → Option String → Result AnyStore
open_other disk spec (some dir) = do files ← disk.open_dir dir; ok (on_files files)
open_other disk spec none = do
  db ← disk.open_database (without_prefix spec (strip_prefix "sqlite:" spec))
  ok (on_tables db)

-- `open_store`
unfoldable pub open_store : Disk → (spec : String) → Result AnyStore
open_store disk spec = open_other disk spec (strip_prefix "file:" spec)

abbrev with_files : {A : Type 0} → Result (A × Files) → Result (A × AnyStore)
with_files r = do (a, files) ← r; ok (a, on_files files)

abbrev with_tables : {A : Type 0} → Result (A × Db) → Result (A × AnyStore)
with_tables r = do (a, db) ← r; ok (a, on_tables db)

-- `require_signing`
unfoldable pub require_signing : AnyStore → Result (Unit {0})
require_signing (on_files files) =
    err (Error.store "shared signer reservations unsupported; requests disabled")
require_signing (on_tables db) = ok tt

-- `reserve_signer_for_record`
unfoldable pub reserve_for_record :
    AnyStore → String → PaymentRecord → (token : String) → Result (String × AnyStore)
reserve_for_record (on_files files) signer rec token =
    err (Error.store "atomic signer reservation unsupported")
reserve_for_record (on_tables db) signer rec token =
    with_tables (reserve_signer_for_record db signer rec token)

-- `reserve_signer`
unfoldable pub reserve_for_job : AnyStore → (signer job token : String) → Result (String × AnyStore)
reserve_for_job (on_files files) signer job token =
    err (Error.store "shared durable signer reservations unsupported; signing disabled")
reserve_for_job (on_tables db) signer job token = with_tables (reserve_signer db signer job token)

-- `cancel_preparation`
unfoldable pub cancel : AnyStore → (signer job token : String) → Result AnyStore
cancel (on_files files) signer job token = err (Error.store "preparation cancellation unsupported")
cancel (on_tables db) signer job token = do
  db' ← cancel_preparation db signer job token
  ok (on_tables db')

-- `migrate_legacy_policy`
unfoldable pub migrate :
    ⦃codec : Ss58⦄
    → AnyStore
    → String
    → ℕ
    → Option BuybackBudget
    → (now : ℕ) → Result (PaymentRecord × AnyStore)
migrate (on_files files) id version budget now =
    with_files (migrate_file files id version budget now)
migrate (on_tables db) id version budget now =
    with_tables (migrate_legacy_policy db id version budget now)

-- `insert`
unfoldable pub insert_any : AnyStore → PaymentRecord → Result AnyStore
insert_any (on_files files) rec = do files' ← insert_file files rec; ok (on_files files')
insert_any (on_tables db) rec = do db' ← insert db rec; ok (on_tables db')

-- `get`
unfoldable pub get_any : AnyStore → String → Result (Option PaymentRecord)
get_any (on_files files) id = get_file files id
get_any (on_tables db) id = ok (get db id)

-- `list`, of a directory that is read in the order of its files.
unfoldable pub list_any : AnyStore → List PaymentState → List PaymentRecord
list_any (on_files files) states = list_files files states
list_any (on_tables db) states = list db states

-- `update`
unfoldable pub update_any : AnyStore → PaymentRecord → (now : ℕ) → Result (PaymentRecord × AnyStore)
update_any (on_files files) rec now = with_files (update_file files rec now)
update_any (on_tables db) rec now = with_tables (update db rec now)
