-- ===== src/Store/Shows.antt =====
-- The two stores of src/store.rs side by side: a directory that has the payments of the tables, in the same
-- order, and the writes that keep it so.
use buyback.Base.{
  ℕ, String, List, [], ◌∷◌, ◌++◌, map, Option, some, none, ◌=?◌, string_eq, ◌≡◌, refl, ap, ◌∙◌, sym,
  arith, All, if◌then◌else◌, String-discrete,
}
use buyback.State.{PaymentState, PaymentRecord, as_str, payment_state_eq}
use buyback.Store.{Row, Db, find_row, set_rows}
use buyback.Store.Rows.{find_row-set_rows, find_row-append}
use buyback.Store.Sqlite.{get, record_of, new_row, is_wanted}
use buyback.Store.File.{Files, read, write, contains_state}
use buyback.Store.Mirror.{Mirrors}

abbrev pub entry_of : Row → String × PaymentRecord
entry_of row = (row.id, row.record')

-- The column `state` is that of the record.
abbrev pub HasItsState : Row → Type 0
HasItsState row = row.state ≡ as_str row.record'.state

-- `id TEXT PRIMARY KEY`
abbrev pub HasUniqueIds : List Row → Type 0
HasUniqueIds [] = Unit
HasUniqueIds (row ∷ rows) = (find_row row.id rows ≡ none) × HasUniqueIds rows

-- The directory has a file for each row, with the record of it.
pub record Shows (db : Db) (files : Files) : Type 0 where
  pub entries : map entry_of db.payments ≡ files
  pub states : All HasItsState db.payments
  pub unique : HasUniqueIds db.payments

read-entries :
    (id : String) (rows : List Row) → record_of (find_row id rows) ≡ read id (map entry_of rows)
unfolding find_row read
read-entries id [] = refl
read-entries id (row ∷ rows) = ground (arith, read-entries id rows)

pub Shows-Mirrors : (db : Db) (files : Files) → Shows db files → Mirrors db files
unfolding get
Shows-Mirrors db files s id = read-entries id db.payments ∙ ap (read id) s.entries

set_rows-none :
    (id state : String) (version : ℕ) (rec : PaymentRecord) (rows : List Row)
    → find_row id rows ≡ none
    → set_rows id state version rec rows ≡ rows
unfolding find_row set_rows
set_rows-none id state version rec [] h = refl
set_rows-none id state version rec (row ∷ rows) h =
    ground (arith, set_rows-none id state version rec rows)

entries-set_rows :
    (id state : String) (version : ℕ) (rec : PaymentRecord) (rows : List Row) (row : Row)
    → HasUniqueIds rows
    → find_row id rows ≡ some row
    → map entry_of (set_rows id state version rec rows) ≡ write id rec (map entry_of rows)
unfolding find_row set_rows write
entries-set_rows id state version rec [] row u h = cc
entries-set_rows id state version rec (r ∷ rows) row u h = ground (
  arith,
  entries-set_rows id state version rec rows row u.1,
  set_rows-none id state version rec rows,
  u.0,
)

entries-append :
    (rec : PaymentRecord) (rows : List Row)
    → find_row rec.id rows ≡ none
    → map entry_of (rows ++ new_row rec ∷ []) ≡ write rec.id rec (map entry_of rows)
unfolding find_row write
entries-append rec [] h = refl
entries-append rec (r ∷ rows) h = ground (arith, entries-append rec rows)

set_rows-HasUniqueIds :
    (id state : String) (version : ℕ) (rec : PaymentRecord) (rows : List Row)
    → HasUniqueIds rows
    → HasUniqueIds (set_rows id state version rec rows)
unfolding set_rows
set_rows-HasUniqueIds id state version rec [] u = tt
set_rows-HasUniqueIds id state version rec (r ∷ rows) u = ground (
  arith,
  set_rows-HasUniqueIds id state version rec rows u.1,
  find_row-set_rows id r.id state version rec rows,
  u.0,
)

append-HasUniqueIds :
    (row : Row) (rows : List Row)
    → find_row row.id rows ≡ none
    → HasUniqueIds rows
    → HasUniqueIds (rows ++ row ∷ [])
unfolding find_row
append-HasUniqueIds row [] h u = (refl, tt)
append-HasUniqueIds row (r ∷ rows) h u =
    ground (arith, append-HasUniqueIds row rows, find_row-append r.id rows row, u.0, u.1)

set_rows-states :
    (id state : String) (version : ℕ) (rec : PaymentRecord) (rows : List Row)
    → state ≡ as_str rec.state
    → All HasItsState rows
    → All HasItsState (set_rows id state version rec rows)
unfolding set_rows
set_rows-states id state version rec [] e a = tt
set_rows-states id state version rec (r ∷ rows) e a =
    ground (arith, set_rows-states id state version rec rows e a.1, a.0)

append-states :
    (rec : PaymentRecord) (rows : List Row)
    → All HasItsState rows
    → All HasItsState (rows ++ new_row rec ∷ [])
append-states rec [] a = (refl, tt)
append-states rec (r ∷ rows) a = (a.0, append-states rec rows a.1)

pub find_row-HasItsState :
    (id : String) (rows : List Row) (row : Row)
    → All HasItsState rows
    → find_row id rows ≡ some row
    → HasItsState row
unfolding find_row
find_row-HasItsState id [] row a h = cc
find_row-HasItsState id (r ∷ rows) row a h =
    ground (arith, find_row-HasItsState id rows row a.1, a.0)

-- A write over a row that is there.
pub set_rows-Shows :
    (db db' : Db) (files : Files) (id state : String) (rec : PaymentRecord) (row : Row)
    → Shows db files
    → find_row id db.payments ≡ some row
    → state ≡ as_str rec.state
    → db'.payments ≡ set_rows id state rec.version rec db.payments
    → Shows db' (write id rec files)
set_rows-Shows db db' files id state rec row s found e stored = record {
  entries =
      ap (map entry_of) stored
      ∙ entries-set_rows id state rec.version rec db.payments row s.unique found
      ∙ ap (write id rec) s.entries;
  states = rw stored (set_rows-states id state rec.version rec db.payments e s.states);
  unique = rw stored (set_rows-HasUniqueIds id state rec.version rec db.payments s.unique);
}

-- A new row.
pub append-Shows :
    (db db' : Db) (files : Files) (rec : PaymentRecord)
    → Shows db files
    → find_row rec.id db.payments ≡ none
    → db'.payments ≡ db.payments ++ new_row rec ∷ []
    → Shows db' (write rec.id rec files)
append-Shows db db' files rec s free stored = record {
  entries =
      ap (map entry_of) stored
      ∙ entries-append rec db.payments free
      ∙ ap (write rec.id rec) s.entries;
  states = rw stored (append-states rec db.payments s.states);
  unique = rw stored (append-HasUniqueIds (new_row rec) db.payments free s.unique);
}

state_of : String → Option PaymentState
state_of s =
    if s =? "pending"
    then some PaymentState.pending
    else if s =? "detected"
    then some PaymentState.detected
    else if s =? "funded"
    then some PaymentState.funded
    else if s =? "swept"
    then some PaymentState.swept
    else if s =? "settled"
    then some PaymentState.settled
    else if s =? "failed"
    then some PaymentState.failed
    else some PaymentState.expired

state_of-as_str : (s : PaymentState) → state_of (as_str s) ≡ some s
unfolding state_of as_str String-discrete
state_of-as_str PaymentState.pending = refl
state_of-as_str PaymentState.detected = refl
state_of-as_str PaymentState.funded = refl
state_of-as_str PaymentState.swept = refl
state_of-as_str PaymentState.settled = refl
state_of-as_str PaymentState.failed = refl
state_of-as_str PaymentState.expired = refl

as_str-inj : (s t : PaymentState) → as_str s ≡ as_str t → s ≡ t
as_str-inj s t e =
    let same : some s ≡ some t = sym (state_of-as_str s) ∙ ap state_of e ∙ state_of-as_str t in
    cc same

same_state : (s t : PaymentState) → (as_str s =? as_str t) ≡ (s =? t)
same_state s t = ground (arith, as_str-inj s t)

-- The two stores select by the same states.
pub is_wanted-contains_state :
    (states : List PaymentState) (s : PaymentState)
    → is_wanted states (as_str s) ≡ contains_state states s
is_wanted-contains_state [] s = refl
is_wanted-contains_state (t ∷ states) s =
    rw (same_state t s, is_wanted-contains_state states s) refl
