-- ===== src/Store/WriteTests.antt =====
-- The two stores of src/store.rs side by side at a few writes, and the theorems on them.
use buyback.Base.{String, List, [], ◌∷◌, map, true, ◌≡◌, refl, String-discrete, all_chars, All}
use buyback.Base.Sort.{sort_by, sort_onto, insert_by}
use mathlib.Core.List.{Perm}
use buyback.State.{
  PaymentState, PaymentRecord, as_str, detected, pending, BuybackBudget-discrete,
  Option-Bool-discrete, JobIdentity-discrete,
}
use buyback.Error.{ok}
use buyback.Store.{Db, find_row, set_rows}
use buyback.Store.Sqlite.{get, list, insert, update, new_row, check_owner, settle_journal}
use buyback.Store.File.{Files, is_valid_id, get_file, list_files}
use buyback.Store.History.{empty_db}
use buyback.Store.Writes.{Write, adds, saves, id_of, write_db, run_db, run_files, run_db-run_files}
use buyback.Fixtures.{payment, codec}

-- A payment "b", and an older payment "a" that is then detected.
abbrev later : PaymentRecord
later = record payment { id = "b"; created_at = 20 }

abbrev found : PaymentRecord
found = record payment { state = detected }

abbrev writes : List Write
writes = adds later ∷ adds payment ∷ saves found 60 ∷ []

abbrev both : Db
both = record {
  payments =
      new_row later
      ∷ record (new_row payment) {
        state = "detected";
        version = 1;
        record' = record found { version = 1; updated_at = 60 };
      }
      ∷ [];
  reservations = [];
}

both_written : run_db writes empty_db ≡ ok both
unfolding run_db write_db insert update find_row set_rows check_owner settle_journal as_str
    String-discrete BuybackBudget-discrete Option-Bool-discrete JobIdentity-discrete
both_written = refl

ids_valid : All (λ w. is_valid_id (id_of w) ≡ true) writes
unfolding is_valid_id all_chars
ids_valid = (refl, (refl, (refl, tt)))

run_db-run_files_example :
    (files : Files) × (run_files writes [] ≡ ok files)
    × ((id : String) → is_valid_id id ≡ true → get_file files id ≡ ok (get both id))
    × ((states : List PaymentState) (entries : Files)
        → Perm entries files
        → Perm (list both states) (list_files entries states))
run_db-run_files_example = run_db-run_files writes both ids_valid both_written

older_is_first : map (λ r. r.id) (list both (pending ∷ detected ∷ [])) ≡ "a" ∷ "b" ∷ []
unfolding list sort_by sort_onto insert_by as_str String-discrete
older_is_first = refl
