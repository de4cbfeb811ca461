-- ===== src/Store/Rows.antt =====
-- Lemmas on the two tables of Store: what a lookup or a test sees after an UPDATE, an INSERT or a
-- DELETE.
use buyback.Base.{
  ℕ, String, true, false, List, [], ◌∷◌, ◌++◌, Option, none, some, ◌=?◌, string_eq, ◌≡◌, ◌≢◌, refl,
  arith, is_some, if◌then◌else◌, ◌⊎◌,
}
use buyback.Chain.{PendingTx}
use buyback.State.{PaymentRecord}
use buyback.Store.{Row, Reservation, find_row, has_journal, set_rows, is_owned, is_taken, release}

-- A row that an UPDATE of `id` has written.
abbrev pub written : String → ℕ → PaymentRecord → Option Row → Option Row
written state version rec none = none
written state version rec (some row) =
    some (record row { state = state; version = version; record' = rec })

pub find_row-set_rows :
    (id j state : String) (version : ℕ) (rec : PaymentRecord) (rows : List Row)
    → find_row j (set_rows id state version rec rows)
      ≡ (if id =? j then written state version rec (find_row j rows) else find_row j rows)
unfolding find_row set_rows
find_row-set_rows id j state version rec [] = ground arith
find_row-set_rows id j state version rec (row ∷ rows) =
    ground (arith, find_row-set_rows id j state version rec rows)

-- A row that is found has the id that was looked for.
pub find_row-id :
    (id : String) (rows : List Row) (row : Row) → find_row id rows ≡ some row → row.id ≡ id
unfolding find_row
find_row-id id [] row h = cc
find_row-id id (r ∷ rows) row h = ground (arith, find_row-id id rows row)

pub find_row-append :
    (j : String) (rows : List Row) (row : Row)
    → find_row j (rows ++ row ∷ []) ≡ (
        if is_some (find_row j rows)
        then find_row j rows
        else if row.id =? j
        then some row
        else none)
unfolding find_row
find_row-append j [] row = ground arith
find_row-append j (r ∷ rows) row = ground (arith, find_row-append j rows row)

-- The journal of a row that is found fences its signer.
pub has_journal-find_row :
    (id : String) (rows : List Row) (row : Row) (p : PendingTx)
    → find_row id rows ≡ some row
    → row.record'.pending ≡ some p
    → has_journal p.signer rows ≡ true
unfolding find_row has_journal
has_journal-find_row id [] row p h e = cc
has_journal-find_row id (r ∷ rows) row p h e = ground (arith, has_journal-find_row id rows row p)

-- A reservation that is not the one deleted stays.
pub is_owned-release :
    (signer job token s j t : String) (rs : List Reservation)
    → (job ≢ j) ⊎ (signer ≢ s)
    → is_owned s j t (release signer job token rs) ≡ is_owned s j t rs
unfolding is_owned release
is_owned-release signer job token s j t [] h = refl
is_owned-release signer job token s j t (r ∷ rs) h =
    ground (arith, is_owned-release signer job token s j t rs h)

-- A signer that no reservation names.
abbrev pub IsFree : String → List Reservation → Type 0
IsFree signer [] = Unit
IsFree signer (r ∷ rs) = (r.signer ≢ signer) × IsFree signer rs

-- `signer TEXT PRIMARY KEY`
abbrev pub HasUniqueSigners : List Reservation → Type 0
HasUniqueSigners [] = Unit
HasUniqueSigners (r ∷ rs) = IsFree r.signer rs × HasUniqueSigners rs

pub IsFree-not_owned :
    (signer job token : String) (rs : List Reservation)
    → IsFree signer rs
    → is_owned signer job token rs ≡ false
unfolding is_owned
IsFree-not_owned signer job token [] h = refl
IsFree-not_owned signer job token (r ∷ rs) h =
    ground (arith, IsFree-not_owned signer job token rs h.1)

-- Under the primary key a signer is reserved for one job, by one token.
pub is_owned_unique :
    (signer job job' token token' : String) (rs : List Reservation)
    → HasUniqueSigners rs
    → is_owned signer job token rs ≡ true
    → is_owned signer job' token' rs ≡ true
    → (job ≡ job') × (token ≡ token')
unfolding is_owned
is_owned_unique signer job job' token token' [] u h k = absurd (cc)
is_owned_unique signer job job' token token' (r ∷ rs) u h k = ground (
  arith,
  is_owned_unique signer job job' token token' rs u.1,
  IsFree-not_owned r.signer job token rs u.0,
  IsFree-not_owned r.signer job' token' rs u.0,
)

IsFree-release :
    (s signer job token : String) (rs : List Reservation)
    → IsFree s rs
    → IsFree s (release signer job token rs)
unfolding release
IsFree-release s signer job token [] h = tt
IsFree-release s signer job token (r ∷ rs) h =
    ground (arith, IsFree-release s signer job token rs h.1)

pub release-HasUniqueSigners :
    (signer job token : String) (rs : List Reservation)
    → HasUniqueSigners rs
    → HasUniqueSigners (release signer job token rs)
unfolding release
release-HasUniqueSigners signer job token [] h = tt
release-HasUniqueSigners signer job token (r ∷ rs) h = ground (
  arith,
  release-HasUniqueSigners signer job token rs h.1,
  IsFree-release r.signer signer job token rs h.0,
)

pub is_taken-IsFree :
    (signer token : String) (rs : List Reservation)
    → is_taken signer token rs ≡ false
    → IsFree signer rs
unfolding is_taken
is_taken-IsFree signer token [] h = tt
is_taken-IsFree signer token (r ∷ rs) h = ground (arith, is_taken-IsFree signer token rs)
