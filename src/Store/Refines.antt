-- ===== src/Store/Refines.antt =====
-- Every operation of `SqliteStore` (src/store.rs) is a step of the ledger that the tables stand for.
use buyback.Base.{
  ℕ, String, true, false, List, [], ◌∷◌, Option, none, some, string_eq, ◌≡◌, ◌≢◌, refl, sym, ap,
  ◌∙◌, arith, Option-cases, inl, inr,
}
use mathlib.Core.Path.{subst}
use buyback.Chain.{PendingTx, pending_tx_eq}
use buyback.State.{PaymentRecord, BuybackBudget}
use buyback.Error.{ok}
use buyback.Keys.{Ss58}
use buyback.Store.{
  Row, Reservation, Db, find_row, has_journal, is_owned, has_job, is_taken, release, released,
}
use buyback.Store.Sqlite.{
  get, reserve, cancel_preparation, insert, update, migrate_legacy_policy, settle_journal,
  check_owner,
}
use buyback.Store.Rows.{
  HasUniqueSigners, IsFree, has_journal-find_row, is_taken-IsFree, IsFree-not_owned,
}
use buyback.Store.Update.{
  update-Updates, Updates-find_row, insert-find_row, insert-reservations, migrate-rows,
  migrate-reservations, migrate-unreserved,
}
use buyback.Store.Fence.{IsFenced}
use buyback.Store.History.{
  Uses, reserves, cancels, inserts, updates, migrates, recovers, History, opened, then_uses,
  empty_db, empty-IsFenced, History-IsFenced,
}
use buyback.Recovery.{LegacyManifest}
use buyback.Store.Recover.{is_busy, has_signer, has_open_journal}
use buyback.Store.Recovers.{Recovers, Recovers-find_row, recover_legacy-Recovers}
use buyback.Store.Versions.{IsVersioned, History-IsVersioned, empty-IsVersioned}
use buyback.Store.Ledger.{
  find_holder, view, put, HasNoJournal, JournalMoves, idle, opens, keeps, closes, Steps, claims,
  frees, creates, writes, decides, imports, Runs, starts, then_steps,
}

IsFree-find_holder :
    (signer : String) (rs : List Reservation) → IsFree signer rs → find_holder signer rs ≡ none
unfolding find_holder
IsFree-find_holder signer [] h = refl
IsFree-find_holder signer (r ∷ rs) h = ground (arith, IsFree-find_holder signer rs h.1)

module _ (signer job token : String) where
  is_owned-find_holder :
      (rs : List Reservation)
      → HasUniqueSigners rs
      → is_owned signer job token rs ≡ true
      → find_holder signer rs ≡ some (job, token)
  unfolding find_holder is_owned
  is_owned-find_holder [] u h = absurd (cc)
  is_owned-find_holder (r ∷ rs) u h =
      ground (arith, is_owned-find_holder rs u.1, IsFree-find_holder r.signer rs u.0)

  released-is_owned :
      (rs : List Reservation)
      → released signer job token rs ≢ 0
      → is_owned signer job token rs ≡ true
  unfolding is_owned released
  released-is_owned [] h = absurd (h refl)
  released-is_owned (r ∷ rs) h = ground (arith, released-is_owned rs)

  release-IsFree : (rs : List Reservation) → IsFree signer rs → release signer job token rs ≡ rs
  unfolding release
  release-IsFree [] h = refl
  release-IsFree (r ∷ rs) h = ground (arith, release-IsFree rs h.1)

  -- Deleting a reservation leaves its signer with no holder, and the others with theirs.
  find_holder-release :
      (k : String) (rs : List Reservation)
      → HasUniqueSigners rs
      → is_owned signer job token rs ≡ true
      → find_holder k (release signer job token rs) ≡ put signer none (λ s. find_holder s rs) k
  unfolding find_holder release is_owned
  find_holder-release k [] u h = absurd (cc)
  find_holder-release k (r ∷ rs) u h = ground (
    arith,
    find_holder-release k rs u.1,
    release-IsFree rs,
    IsFree-find_holder signer rs,
    IsFree-not_owned r.signer job token rs u.0,
    u.0,
  )

  -- A reservation of another job or token is not among the ones that a new token may not meet.
  is_taken-IsFreshToken :
      (s j : String) (rs : List Reservation)
      → is_taken signer token rs ≡ false
      → find_holder s rs ≢ some (j, token)
  unfolding find_holder is_taken
  is_taken-IsFreshToken s j [] h e = cc
  is_taken-IsFreshToken s j (r ∷ rs) h e = ground (arith, is_taken-IsFreshToken s j rs)

has_job-HoldsNothing :
    (job s t : String) (rs : List Reservation)
    → has_job job rs ≡ false
    → find_holder s rs ≢ some (job, t)
unfolding find_holder has_job
has_job-HoldsNothing job s t [] h e = cc
has_job-HoldsNothing job s t (r ∷ rs) h e = ground (arith, has_job-HoldsNothing job s t rs)

-- A signer with no journal in the tables has none in the ledger.
has_journal-HasNoJournal :
    (signer : String) (db : Db)
    → has_journal signer db.payments ≡ false
    → HasNoJournal signer (view db)
unfolding get
has_journal-HasNoJournal signer db h id r p hr hp same =
    elim (Option-cases (find_row id db.payments)) [
      | inl e ↦ ground (arith, e)
      | inr (row, e) ↦ ground (arith, e, has_journal-find_row id db.payments row p)
    ]

module _ ⦃codec : Ss58⦄ (db db' : Db) where
  reserve-Steps :
      (signer job token t : String) (version : Option ℕ)
      → reserve db signer job version token ≡ ok (t, db')
      → Steps (view db) (view db')
  unfolding reserve find_holder get
  reserve-Steps signer job token t version h =
      claims signer job token
        (IsFree-find_holder signer db.reservations
          (is_taken-IsFree signer token db.reservations (ground arith)))
        (λ s j. is_taken-IsFreshToken signer job token s j db.reservations (ground arith))
        (has_journal-HasNoJournal signer db (ground arith)) (λ id. ground arith) (λ s. ground arith)

  cancel-Steps :
      (signer job token : String)
      → IsFenced db
      → cancel_preparation db signer job token ≡ ok db'
      → Steps (view db) (view db')
  unfolding cancel_preparation get
  cancel-Steps signer job token f h =
      let owned : is_owned signer job token db.reservations ≡ true =
        released-is_owned signer job token db.reservations (λ z. ground (arith, z)) in
      frees signer job token (is_owned-find_holder signer job token db.reservations f.unique owned)
        (has_journal-HasNoJournal signer db (ground arith))
        (λ r hr. elim (Option-cases (find_row job db.payments)) [
          | inl e ↦ ground (arith, e)
          | inr (row, e) ↦ elim (Option-cases row.record'.pending) [
            | inl e' ↦ ground (arith, e, e')
            | inr (p, e') ↦ ground (arith, e, e')
          ]
        ])
        (λ id. ground arith)
        (λ s. ground (arith, find_holder-release signer job token s db.reservations f.unique owned))

  insert-Steps :
      (rec : PaymentRecord)
      → rec.pending ≡ none
      → insert db rec ≡ ok db'
      → Steps (view db) (view db')
  unfolding insert get
  insert-Steps rec n h =
      creates rec (ground arith) n (λ id. ground (arith, insert-find_row db rec db' h id))
        (λ s. rw (insert-reservations db rec db' h) refl)

  migrate-Steps :
      (id : String) (version : ℕ) (budget : Option BuybackBudget) (now : ℕ) (next : PaymentRecord)
      → migrate_legacy_policy db id version budget now ≡ ok (next, db')
      → Steps (view db) (view db')
  unfolding get
  migrate-Steps id version budget now next h =
      let (old, found, decided, _) = migrate-rows db id version budget now next db' h id in
      decides id old.record' next version budget now (ground (arith, found))
        (λ s t.
          has_job-HoldsNothing id s t db.reservations
            (migrate-unreserved db id version budget now next db' h))
        decided (λ j. ground (arith, migrate-rows db id version budget now next db' h j))
        (λ s. rw (migrate-reservations db id version budget now next db' h) refl)

module _ (db : Db) (id : String) (rs : List Reservation) where
  -- Whether the journal `p` is held for the job by a reservation.
  IsHolder : PendingTx → Type 0
  IsHolder p =
      (token : String) × (p.reservation ≡ some token)
      × (is_owned p.signer id token db.reservations ≡ true)

  settle-closes :
      (p : PendingTx)
      → settle_journal db id (some p) none ≡ ok rs
      → (token : String) × (p.reservation ≡ some token)
        × (is_owned p.signer id token db.reservations ≡ true)
        × (rs ≡ release p.signer id token db.reservations)
  unfolding settle_journal
  settle-closes p h = elim (Option-cases p.reservation) [
    | inl e ↦ absurd (ground (arith, e))
    | inr (token, e) ↦ (
      token,
      e,
      released-is_owned p.signer id token db.reservations (λ z. ground (arith, e, z)),
      ground (arith, e),
    )
  ]

  settle-same : (p q : PendingTx) → settle_journal db id (some p) (some q) ≡ ok rs → some q ≡ some p
  unfolding settle_journal
  settle-same p q h = ground arith

  settle-kept :
      (before : Option PendingTx) (q : PendingTx)
      → settle_journal db id before (some q) ≡ ok rs
      → rs ≡ db.reservations
  unfolding settle_journal
  settle-kept none q h = ground arith
  settle-kept (some p) q h = ground arith

check_owner-held :
    (db : Db) (rec : PaymentRecord) (p : PendingTx)
    → check_owner db rec (some p) ≡ ok tt
    → (token : String) × (p.reservation ≡ some token)
      × (is_owned p.signer rec.id token db.reservations ≡ true)
unfolding check_owner
check_owner-held db rec p h = elim (Option-cases p.reservation) [
  | inl e ↦ absurd (ground (arith, e))
  | inr (token, e) ↦ (token, e, ground (arith, e))
]

journal_moves :
    (db db' : Db) (rec : PaymentRecord) (before after : Option PendingTx)
    → HasUniqueSigners db.reservations
    → check_owner db rec after ≡ ok tt
    → settle_journal db rec.id before after ≡ ok db'.reservations
    → JournalMoves rec.id (view db) (view db') before after
unfolding settle_journal
journal_moves db db' rec none none u o h = idle refl refl (λ s. ap (find_holder s) (ground arith))
journal_moves db db' rec none (some p) u o h =
    let (token, e, owned) = check_owner-held db rec p o in
    opens p token refl refl e (is_owned-find_holder p.signer rec.id token db.reservations u owned)
      (λ s. ap (find_holder s) (settle-kept db rec.id db'.reservations none p h))
journal_moves db db' rec (some q) (some p) u o h =
    let (token, e, owned) = check_owner-held db rec p o in
    keeps p token (sym (settle-same db rec.id db'.reservations q p h)) refl e
      (is_owned-find_holder p.signer rec.id token db.reservations u owned)
      (λ s. ap (find_holder s) (settle-kept db rec.id db'.reservations (some q) p h))
journal_moves db db' rec (some p) none u o h =
    let (token, e, owned, r) = settle-closes db rec.id db'.reservations p h in
    closes p token refl refl e (is_owned-find_holder p.signer rec.id token db.reservations u owned)
      (λ s.
        ap (find_holder s) r ∙ find_holder-release p.signer rec.id token s db.reservations u owned)

update-Steps :
    ⦃codec : Ss58⦄ (db db' : Db) (rec next : PaymentRecord) (now : ℕ)
    → IsFenced db
    → update db rec now ≡ ok (next, db')
    → Steps (view db) (view db')
unfolding get
update-Steps db db' rec next now f h =
    let u = update-Updates db rec now next db' h in
    writes u.row.record' rec now (ground (arith, u.found)) u.current u.same_job
      (λ j. ground (arith, Updates-find_row db rec now next db' u j, u.result))
      (journal_moves db db' rec u.row.record'.pending rec.pending f.unique u.owner u.settles)

-- The tests of `is_busy`, as the ledger sees them.
has_signer-find_holder :
    (a b : String) (rs : List Reservation)
    → has_signer a b rs ≡ false
    → (find_holder a rs ≡ none) × (find_holder b rs ≡ none)
unfolding has_signer find_holder
has_signer-find_holder a b [] h = (refl, refl)
has_signer-find_holder a b (r ∷ rs) h = ground (arith, has_signer-find_holder a b rs)

has_open_journal-has_journal :
    (a b : String) (rows : List Row)
    → has_open_journal a b rows ≡ false
    → (has_journal a rows ≡ false) × (has_journal b rows ≡ false)
unfolding has_open_journal has_journal
has_open_journal-has_journal a b [] h = (refl, refl)
has_open_journal-has_journal a b (row ∷ rows) h =
    ground (arith, has_open_journal-has_journal a b rows)

recovery-Steps :
    ⦃codec : Ss58⦄ (db db' : Db) (m : LegacyManifest) (now : ℕ)
    → IsVersioned db
    → Recovers db m now db'
    → Steps (view db) (view db')
unfolding get is_busy
recovery-Steps db db' m now v done =
    let r = done.row.record' in
    let column = v m.job done.row done.found in
    let holders =
      has_signer-find_holder r.address m.treasury db.reservations (ground (arith, done.is_free)) in
    let journals =
      has_open_journal-has_journal r.address m.treasury db.payments
        (ground (arith, done.is_free)) in
    let job = done.is_complete.same_job.0 in
    imports r m now (ground (arith, done.found, job)) done.is_complete holders.0 holders.1
      (λ s t. has_job-HoldsNothing r.id s t db.reservations (ground (arith, done.is_free)))
      (has_journal-HasNoJournal r.address db journals.0)
      (has_journal-HasNoJournal m.treasury db journals.1)
      (λ id. ground (arith, Recovers-find_row db db' m now done id, job, column))
      (λ s. ap (find_holder s) done.same_reservations)

pub Uses-Steps :
    ⦃codec : Ss58⦄ {db db' : Db}
    → Uses db db'
    → IsFenced db
    → IsVersioned db
    → Steps (view db) (view db')
Uses-Steps {db = db} {db' = db'} (reserves signer job token t version h) f v =
    reserve-Steps db db' signer job token t version h
Uses-Steps {db = db} {db' = db'} (cancels signer job token h) f v =
    cancel-Steps db db' signer job token f h
Uses-Steps {db = db} {db' = db'} (inserts rec n h) f v = insert-Steps db db' rec n h
Uses-Steps {db = db} {db' = db'} (updates rec next now h) f v = update-Steps db db' rec next now f h
Uses-Steps {db = db} {db' = db'} (migrates id version budget now next h) f v =
    migrate-Steps db db' id version budget now next h
Uses-Steps {db' = db'} (recovers x x' archive m now report start h end) f v =
    subst (λ db. Steps (view db) (view db')) start
      (subst (λ db'. Steps (view x.tables) (view db')) end
        (recovery-Steps x.tables x'.tables m now (subst IsVersioned (sym start) v)
          (recover_legacy-Recovers x archive m now report x' h)))

-- However the store has been used by its operations since it was empty (records being inserted without a
-- journal), what its tables hold has come about by the abstract operations: a signer is claimed only while
-- nobody holds it and no record has a journal of it, under a token that nobody has, and freed by
-- its holder only, with no journal of it; a record is
-- created once, and each later write is over the version that it was read at, for the same job, and changes
-- the journal and its signer's holder together: a journal is opened, kept or closed by the job that holds its
-- signer, kept only as it is, and closing it frees the signer. A legacy payment is recovered only with a complete manifest,
-- while neither of its two signers is held or has a journal, and this changes no holder.
pub History-Runs : ⦃codec : Ss58⦄ {db : Db} → History empty_db db → Runs (view empty_db) (view db)
History-Runs opened = starts
History-Runs (then_uses run step) = then_steps (History-Runs run) (
    Uses-Steps step (History-IsFenced run empty-IsFenced)
      (History-IsVersioned run empty-IsVersioned))
