-- ===== src/Store/Fence.antt =====
-- The signer fence of `SqliteStore` (src/store.rs): every unresolved journal is covered by a
-- reservation of its signer, for its job and by its token, and no operation breaks that.
use buyback.Base.{
  ℕ, String, Bool, true, false, List, Option, none, some, string_eq, ◌≡◌, ◌≢◌, arith, ◌⊎◌, inl, inr,
  String-discrete, Option-cases,
}
use buyback.Chain.{PendingTx}
use buyback.State.{PaymentRecord, BuybackBudget}
use buyback.Error.{ok}
use buyback.Store.{Row, Reservation, Db, find_row, is_owned}
use buyback.Store.Rows.{
  has_journal-find_row, is_owned-release, HasUniqueSigners, release-HasUniqueSigners,
  is_taken-IsFree,
}
use buyback.Store.Update.{
  Updates, Updates-find_row, insert-find_row, insert-reservations, migrate-find_row,
  migrate-reservations,
}
use buyback.Keys.{Ss58}
use buyback.Store.Sqlite.{
  reserve, cancel_preparation, insert, migrate_legacy_policy, settle_journal, check_owner,
}

abbrev pub is_held : Option String → String → String → List Reservation → Bool
is_held none signer id rs = false
is_held (some token) signer id rs = is_owned signer id token rs

-- Whether the journal of the job `id` is covered by a reservation.
abbrev pub is_fenced : PendingTx → String → List Reservation → Bool
is_fenced p id rs = is_held p.reservation p.signer id rs

pub record IsFenced (db : Db) : Type 0 where
  pub unique : HasUniqueSigners db.reservations
  pub fenced :
      (id : String) (row : Row) (p : PendingTx)
      → find_row id db.payments ≡ some row
      → row.record'.pending ≡ some p
      → is_fenced p id db.reservations ≡ true

-- What settling a journal leaves of the other jobs' fences.
settle_journal-fenced :
    (db : Db) (id : String) (previous next : Option PendingTx) (rs : List Reservation)
    → settle_journal db id previous next ≡ ok rs
    → (j : String) (p : PendingTx) → (id ≢ j) ⊎ (next ≢ none)
    → is_fenced p j db.reservations ≡ true
    → is_fenced p j rs ≡ true
unfolding settle_journal
settle_journal-fenced db id none next rs h j p ne f = ground arith
settle_journal-fenced db id (some q) (some q') rs h j p ne f = ground arith
settle_journal-fenced db id (some q) none rs h j p ne f = elim (Option-cases q.reservation) [
  | inl e ↦ ground (arith, e)
  | inr (t, e) ↦ elim (Option-cases p.reservation) [
    | inl e' ↦ ground (arith, e')
    | inr (t', e') ↦
        ground (arith, e, e', is_owned-release q.signer id t p.signer j t' db.reservations)
  ]
]

settle_journal-HasUniqueSigners :
    (db : Db) (id : String) (previous next : Option PendingTx) (rs : List Reservation)
    → settle_journal db id previous next ≡ ok rs
    → HasUniqueSigners db.reservations
    → HasUniqueSigners rs
unfolding settle_journal
settle_journal-HasUniqueSigners db id none next rs h u = ground arith
settle_journal-HasUniqueSigners db id (some q) (some q') rs h u = ground arith
settle_journal-HasUniqueSigners db id (some q) none rs h u = elim (Option-cases q.reservation) [
  | inl e ↦ ground (arith, e)
  | inr (t, e) ↦ ground (arith, e, release-HasUniqueSigners q.signer id t db.reservations u)
]

-- Writing a journal leaves the reservations as they are.
settle_journal-some :
    (db : Db) (id : String) (previous : Option PendingTx) (p : PendingTx) (rs : List Reservation)
    → settle_journal db id previous (some p) ≡ ok rs
    → rs ≡ db.reservations
unfolding settle_journal
settle_journal-some db id none p rs h = ground arith
settle_journal-some db id (some q) p rs h = ground arith

check_owner-fenced :
    (db : Db) (rec : PaymentRecord) (p : PendingTx)
    → rec.pending ≡ some p
    → check_owner db rec rec.pending ≡ ok tt
    → is_fenced p rec.id db.reservations ≡ true
unfolding check_owner
check_owner-fenced db rec p e h = ground arith

module _ (db : Db) (rec : PaymentRecord) (now : ℕ) (next : PaymentRecord) (db' : Db) where
  Updates-fenced :
      Updates db rec now next db'
      → IsFenced db
      → (id : String) (row : Row) (p : PendingTx) → find_row id db'.payments ≡ some row
      → row.record'.pending ≡ some p
      → is_fenced p id db'.reservations ≡ true
  Updates-fenced u f id row p hr hp = elim (String-discrete rec.id id) [
    | yes e ↦
        let g : rec.pending ≡ some p =
          ground (arith, Updates-find_row db rec now next db' u id, u.result) in
        let s : db'.reservations ≡ db.reservations =
          settle_journal-some db rec.id u.row.record'.pending p db'.reservations
            (rw g at u.settles) in
        let k : is_fenced p rec.id db.reservations ≡ true = check_owner-fenced db rec p g u.owner in
        rw (← e, s) k
    | no n ↦
        settle_journal-fenced db rec.id u.row.record'.pending rec.pending db'.reservations u.settles
          id p (inl n)
          (f.fenced id row p (ground (arith, Updates-find_row db rec now next db' u id)) hp)
  ]

  -- A successful update keeps every unresolved journal fenced.
  pub Updates-IsFenced : Updates db rec now next db' → IsFenced db → IsFenced db'
  Updates-IsFenced u f = record {
    unique =
        settle_journal-HasUniqueSigners db rec.id u.row.record'.pending rec.pending db'.reservations
          u.settles f.unique;
    fenced = Updates-fenced u f;
  }

pub reserve-IsFenced :
    (db : Db) (signer job : String) (version : Option ℕ) (token t : String) (db' : Db)
    → reserve db signer job version token ≡ ok (t, db')
    → IsFenced db
    → IsFenced db'
unfolding reserve is_owned
reserve-IsFenced db signer job version token t db' h f = record {
  unique = ground (arith, is_taken-IsFree signer token db.reservations, f.unique);
  fenced = λ id row p hr hp. elim (Option-cases p.reservation) [
    | inl e ↦ ground (arith, f.fenced id row p, e)
    | inr (t', e) ↦ ground (arith, f.fenced id row p, e)
  ];
}

pub cancel_preparation-IsFenced :
    (db : Db) (signer job token : String) (db' : Db)
    → cancel_preparation db signer job token ≡ ok db'
    → IsFenced db
    → IsFenced db'
unfolding cancel_preparation
cancel_preparation-IsFenced db signer job token db' h f = record {
  unique = ground (arith, release-HasUniqueSigners signer job token db.reservations, f.unique);
  fenced = λ id row p hr hp. elim (Option-cases p.reservation) [
    | inl e ↦ ground (arith, f.fenced id row p, e)
    | inr (t', e) ↦ ground (
      arith,
      f.fenced id row p,
      e,
      has_journal-find_row id db.payments row p,
      is_owned-release signer job token p.signer id t' db.reservations,
    )
  ];
}

pub insert-IsFenced :
    (db : Db) (rec : PaymentRecord) (db' : Db)
    → insert db rec ≡ ok db'
    → rec.pending ≡ none
    → IsFenced db
    → IsFenced db'
insert-IsFenced db rec db' h n f = record {
  unique = rw (insert-reservations db rec db' h) f.unique;
  fenced = λ id row p hr hp.
      rw (insert-reservations db rec db' h)
        (ground (arith, insert-find_row db rec db' h id, f.fenced id row p));
}

pub migrate_legacy_policy-IsFenced :
    ⦃codec : Ss58⦄ (db : Db) (id : String) (version : ℕ) (budget : Option BuybackBudget) (now : ℕ)
    (next : PaymentRecord) (db' : Db)
    → migrate_legacy_policy db id version budget now ≡ ok (next, db')
    → IsFenced db
    → IsFenced db'
migrate_legacy_policy-IsFenced db id version budget now next db' h f = record {
  unique = rw (migrate-reservations db id version budget now next db' h) f.unique;
  fenced = λ j row p hr hp. rw (migrate-reservations db id version budget now next db' h) (
      ground (arith, migrate-find_row db id version budget now next db' h j row, f.fenced j row p));
}
