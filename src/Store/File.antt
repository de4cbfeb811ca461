-- ===== src/Store/File.antt =====
-- `FileStore` of src/store.rs: one JSON file per payment, for a process without signing. A directory is
-- the list of its files, by payment id; a file holds the value that its JSON text stands for. Failures
-- of the file system are left out, and `list`, whose order is that of the directory.
use buyback.Base.{
  is_alphanumeric, is_empty, all_chars, ℕ, ◌+◌, String, Bool, false, List, [], ◌∷◌, Option, none,
  some, ◌&&◌, ◌||◌, not, ◌=?◌, ◌==◌, string_eq, is_some, wrap_u64, push_str, if◌then◌else◌,
}
use buyback.Base.Sort.{sort_by}
use buyback.State.{PaymentState, PaymentRecord, BuybackBudget, payment_state_eq}
use buyback.Error.{Error, Result, ok, ◌>>=◌, ◌>>◌, fail_if, ok_or}
use buyback.Keys.{Ss58}
use buyback.Store.{migrated_policy}
use buyback.Store.Sqlite.{is_same_job}

abbrev pub Files : Type 0
Files = List (String × PaymentRecord)

-- `c.is_ascii_alphanumeric() || c == '-'`
abbrev is_id_char : ℕ → Bool
is_id_char c = is_alphanumeric c || c == 0x2d

-- The ids that `FileStore::path` accepts.
unfoldable pub is_valid_id : String → Bool
is_valid_id id = not (is_empty id) && all_chars is_id_char id

-- `FileStore::path`
abbrev check_path : String → Result (Unit {0})
check_path id = fail_if (not (is_valid_id id)) (Error.store (push_str "invalid id " id))

-- `FileStore::read`
unfoldable pub read : String → Files → Option PaymentRecord
read id [] = none
read id ((name, rec) ∷ files) = if name =? id then some rec else read id files

-- `FileStore::write`
unfoldable pub write : String → PaymentRecord → Files → Files
write id rec [] = (id, rec) ∷ []
write id rec ((name, old) ∷ files) =
    let rest = write id rec files in if name =? id then (name, rec) ∷ files else (name, old) ∷ rest

-- `get`
unfoldable pub get_file : Files → String → Result (Option PaymentRecord)
get_file files id = check_path id >> ok (read id files)

-- `insert`
unfoldable pub insert_file : Files → PaymentRecord → Result Files
insert_file files rec = do
  check_path rec.id
  fail_if (is_some (read rec.id files)) (Error.store (push_str rec.id " exists"))
  ok (write rec.id rec files)

-- `update`
unfoldable pub update_file : Files → PaymentRecord → ℕ → Result (PaymentRecord × Files)
update_file files rec now = do
  check_path rec.id
  cur ← ok_or (read rec.id files) (Error.not_found rec.id)
  fail_if (not (is_same_job cur rec)) (Error.store "immutable job budget")
  fail_if (not (cur.version == rec.version)) (Error.conflict rec.id)
  let next = record rec { version = wrap_u64 (rec.version + 1); updated_at = now }
  ok (next, write rec.id next files)

-- `migrate_legacy_policy`
unfoldable pub migrate_file :
    ⦃codec : Ss58⦄ → Files → String → ℕ → Option BuybackBudget → ℕ → Result (PaymentRecord × Files)
migrate_file files id version budget now = do
  check_path id
  previous ← ok_or (read id files) (Error.not_found id)
  next ← migrated_policy previous version budget now
  ok (next, write id next files)

-- `states.contains(&r.state)`
abbrev pub contains_state : List PaymentState → PaymentState → Bool
contains_state [] state = false
contains_state (s ∷ states) state = s =? state || contains_state states state

-- The loop of `list` over the entries of the directory.
unfoldable pub kept_records : List PaymentState → Files → List PaymentRecord
kept_records states [] = []
kept_records states ((name, rec) ∷ files) =
    let rest = kept_records states files in
    if contains_state states rec.state then rec ∷ rest else rest

-- `list`, of the entries in the order in which the directory is read.
unfoldable pub list_files : Files → List PaymentState → List PaymentRecord
unfolding kept_records sort_by
list_files entries states = sort_by (λ rec. rec.created_at) (kept_records states entries)
