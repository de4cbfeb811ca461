-- ===== src/Store/Update.antt =====
-- The writes of `SqliteStore` (src/store.rs) taken apart: what a successful one has checked, and the
-- tables that it leaves.
use buyback.Base.{
  ℕ, ◌+◌, String, true, false, Option, none, some, ◌=?◌, string_eq, ◌≡◌, arith, if◌then◌else◌, ◌⊎◌,
  inl, inr, ap, ◌∙◌, Option-cases, u64_mod, ◌<◌, ◌≤◌,
}
use buyback.State.{PaymentRecord, as_str, BuybackBudget}
use buyback.Error.{ok}
use buyback.Store.{Row, Db, find_row, has_job, set_rows, migrated_policy}
use buyback.Keys.{Ss58}
use buyback.Store.Rows.{written, find_row-set_rows, find_row-append}
use buyback.Store.Sqlite.{
  insert, update, migrate_legacy_policy, settle_journal, check_owner, is_same_job, new_row,
}

-- What a successful update has checked, and what it leaves.
pub record Updates (db : Db) (rec : PaymentRecord) (now : ℕ) (next : PaymentRecord) (db' : Db)
    : Type 0 where
  pub row : Row
  pub found : find_row rec.id db.payments ≡ some row
  pub current : row.record'.version ≡ rec.version
  pub same_job : is_same_job row.record' rec ≡ true
  pub owner : check_owner db rec rec.pending ≡ ok tt
  pub settles : settle_journal db rec.id row.record'.pending rec.pending ≡ ok db'.reservations
  pub in_range : rec.version + 1 < u64_mod
  pub result : next ≡ record rec { version = rec.version + 1; updated_at = now }
  pub stored : db'.payments ≡ set_rows next.id (as_str next.state) next.version next db.payments

pub update-Updates :
    (db : Db) (rec : PaymentRecord) (now : ℕ) (next : PaymentRecord) (db' : Db)
    → update db rec now ≡ ok (next, db')
    → Updates db rec now next db'
unfolding update
update-Updates db rec now next db' h = elim (Option-cases (find_row rec.id db.payments)) [
  | inl e ↦ ground (arith, e)
  | inr (row, e) ↦ record {
    row = row;
    found = e;
    current = ground arith;
    same_job = ground arith;
    owner = ground arith;
    settles = ground arith;
    in_range = ground arith;
    result = ground arith;
    stored = ground arith;
  }
]

module _ (db : Db) (rec : PaymentRecord) (now : ℕ) (next : PaymentRecord) (db' : Db) where
  -- What a lookup finds after an update: the new record at its id, the old rows elsewhere.
  pub Updates-find_row :
      (u : Updates db rec now next db') (j : String)
      → find_row j db'.payments ≡ (
          if rec.id =? j
          then written (as_str next.state) next.version next (some u.row)
          else find_row j db.payments)
  Updates-find_row u j =
      let same : next.id ≡ rec.id = ap (λ (r : PaymentRecord). r.id) u.result in
      ap (find_row j) u.stored
      ∙ find_row-set_rows next.id j (as_str next.state) next.version next db.payments
      ∙ ground (arith, same, u.found)

module _ (db : Db) (rec : PaymentRecord) (db' : Db) (h : insert db rec ≡ ok db') where
  pub insert-reservations : db'.reservations ≡ db.reservations
  unfolding insert
  insert-reservations = ground arith

  -- What a lookup finds after an insert.
  pub insert-find_row :
      (j : String)
      → find_row j db'.payments
        ≡ (if rec.id =? j then some (new_row rec) else find_row j db.payments)
  unfolding insert
  insert-find_row j = ground (arith, find_row-append j db.payments (new_row rec))

module _ ⦃codec : Ss58⦄ (r : PaymentRecord) (version : ℕ) (budget : Option BuybackBudget) (now : ℕ)
    (next : PaymentRecord) (h : migrated_policy r version budget now ≡ ok next) where
  pub migrated_policy-pending : next.pending ≡ none
  unfolding migrated_policy
  migrated_policy-pending = ground arith

  -- A job that is migrated has no journal.
  pub migrated_policy-bare : r.pending ≡ none
  unfolding migrated_policy
  migrated_policy-bare = ground arith

  -- A migration decides a policy that was open, one version on, and keeps the identity.
  pub migrated_policy-open :
      (r.auto_required ≡ none)
      × (r.version ≤ next.version)
      × (next.identity ≡ r.identity)
      × (next.id ≡ r.id)
      × (next.state ≡ r.state)
  unfolding migrated_policy
  migrated_policy-open = ground arith

module _ ⦃codec : Ss58⦄ (db : Db) (id : String) (version : ℕ) (budget : Option BuybackBudget)
    (now : ℕ) (next : PaymentRecord) (db' : Db)
    (h : migrate_legacy_policy db id version budget now ≡ ok (next, db')) where
  pub migrate-reservations : db'.reservations ≡ db.reservations
  unfolding migrate_legacy_policy
  migrate-reservations = ground arith

  -- No signer was reserved for the job.
  pub migrate-unreserved : has_job id db.reservations ≡ false
  unfolding migrate_legacy_policy
  migrate-unreserved = ground arith

  -- A migration leaves the other rows, and its own has no journal.
  pub migrate-find_row :
      (j : String) (row : Row)
      → find_row j db'.payments ≡ some row
      → (find_row j db.payments ≡ some row) ⊎ (row.record'.pending ≡ none)
  unfolding migrate_legacy_policy
  migrate-find_row j row hr = elim (Option-cases (find_row id db.payments)) [
    | inl e ↦ ground (arith, e)
    | inr (old, e) ↦ ground (
      arith,
      e,
      find_row-set_rows id j old.state next.version next db.payments,
      migrated_policy-pending old.record' version budget now next,
    )
  ]

  -- The tables after a migration.
  pub migrate-stored :
      (old : Row) × (find_row id db.payments ≡ some old)
      × (migrated_policy old.record' version budget now ≡ ok next)
      × (db'.payments ≡ set_rows id old.state next.version next db.payments)
  unfolding migrate_legacy_policy
  migrate-stored = elim (Option-cases (find_row id db.payments)) [
    | inl e ↦ absurd (ground (arith, e))
    | inr (old, e) ↦ (old, e, ground (arith, e), ground (arith, e))
  ]

  -- The migrated record is stored at its id, and the others stay.
  pub migrate-rows :
      (j : String)
      → (old : Row) × (find_row id db.payments ≡ some old)
        × (migrated_policy old.record' version budget now ≡ ok next)
        × (find_row j db'.payments ≡ (
            if id =? j
            then written old.state next.version next (some old)
            else find_row j db.payments))
  unfolding migrate_legacy_policy
  migrate-rows j = elim (Option-cases (find_row id db.payments)) [
    | inl e ↦ absurd (ground (arith, e))
    | inr (old, e) ↦ (
      old,
      e,
      ground (arith, e),
      ground (arith, e, find_row-set_rows id j old.state next.version next db.payments),
    )
  ]
