-- ===== src/Engine/Safety.antt =====
-- Every program of src/engine.rs that a step runs, followed through its awaits: it changes the store
-- by the store's operations only, and sends at most one transaction, journaled before.
use buyback.Base.{ℕ, String, none, some, ◌≡◌, refl, inl, inr, arith}
use buyback.Chain.{AccountId, Action, ChainCall, PendingTx, PreparedTx, FinalizedTx}
use buyback.State.{PaymentRecord, PaymentStatus}
use buyback.Error.{Result, ok, err, Result-cases}
use buyback.Keys.{Ss58}
use buyback.Store.{Db}
use buyback.Store.History.{
  History, Uses, opened, then_uses, reserves, cancels, inserts, updates, pending_of,
}
use buyback.Store.Journals.{History-Since}
use buyback.Engine.Env.{
  Engine, World, Broadcast, ◌>>=◌, pure, ask, now, announce, store_update, store_get, store_insert,
  store_reserve, store_cancel, broadcast, submit_and_watch, commit, commit_db, tick_world,
}
use buyback.Engine.Trace.{
  IsQuiet, IsCareful, Sends, bind-History, bind_last-Sends, IsJournaledIn, History-append,
  quiet_rules, careful_rules, bind-IsQuiet, bind-IsCareful, then-IsCareful, IsQuiet-IsCareful,
  attempt-IsCareful,
}
use buyback.Engine.Ends.{Ends, after-IsCareful, ends_bind, ends_map}
use buyback.Engine.Journal.{
  accept_prepared, journal_entry, journal, submit, submitted, send_journaled,
}
use buyback.Store.Sqlite.{reserve_signer_for_record, update, get}
use buyback.Store.Swap.{get-update}

-- The other processes that share the store use it by its operations too.
abbrev pub RunsOthers : ⦃codec : Ss58⦄ → Engine → Type 0
RunsOthers e = (n : ℕ) (db : Db) → History db (e.rpc.meanwhile n db)

module _ ⦃codec : Ss58⦄ (e : Engine) (others : RunsOthers e) where
  pub ask-IsQuiet : {A : Type 0} (question : ℕ → Result A) → IsQuiet (ask e question)
  unfolding ask
  ask-IsQuiet question = record { history = λ w. others w.awaits w.db; sent = λ w. refl }

  pub now-IsQuiet : IsQuiet (now e)
  unfolding now
  now-IsQuiet = record { history = λ w. opened; sent = λ w. refl }

  commit-History :
      {A : Type 0} (w : World) (r : Result (A × Db))
      → ((a : A) (db : Db) → r ≡ ok (a, db) → Uses w.db db)
      → History w.db (commit e w r).1.db
  commit-History w (ok (a, db)) h = then_uses opened (h a db refl)
  commit-History w (err x) h = opened

  commit-sent : {A : Type 0} (w : World) (r : Result (A × Db)) → (commit e w r).1.sent ≡ w.sent
  commit-sent w (ok (a, db)) = refl
  commit-sent w (err x) = refl

  commit_db-History :
      (w : World) (r : Result Db)
      → ((db : Db) → r ≡ ok db → Uses w.db db)
      → History w.db (commit_db e w r).1.db
  commit_db-History w (ok db) h = then_uses opened (h db refl)
  commit_db-History w (err x) h = opened

  commit_db-sent : (w : World) (r : Result Db) → (commit_db e w r).1.sent ≡ w.sent
  commit_db-sent w (ok db) = refl
  commit_db-sent w (err x) = refl

  pub store_update-IsQuiet : (rec : PaymentRecord) → IsQuiet (store_update e rec)
  unfolding store_update
  store_update-IsQuiet rec = record {
    history = λ w0. History-append (others w0.awaits w0.db) (
        commit-History (tick_world e w0)
          (update (tick_world e w0).db rec (e.rpc.now (tick_world e w0).awaits))
          (λ next db h. updates rec next (e.rpc.now (tick_world e w0).awaits) h));
    sent = λ w0.
        commit-sent (tick_world e w0)
          (update (tick_world e w0).db rec (e.rpc.now (tick_world e w0).awaits));
  }

  pub store_get-IsQuiet : (id : String) → IsQuiet (store_get e id)
  unfolding store_get
  store_get-IsQuiet id = record { history = λ w. others w.awaits w.db; sent = λ w. refl }

  pub store_insert-IsQuiet :
      (rec : PaymentRecord) → rec.pending ≡ none → IsQuiet (store_insert e rec)
  unfolding store_insert
  store_insert-IsQuiet rec n = record {
    history = λ w0.
        History-append (others w0.awaits w0.db)
          (commit_db-History (tick_world e w0) _ (λ db h. inserts rec n h));
    sent = λ w0. commit_db-sent (tick_world e w0) _;
  }

  pub store_reserve-IsQuiet :
      (signer : String) (rec : PaymentRecord) → IsQuiet (store_reserve e signer rec)
  unfolding store_reserve reserve_signer_for_record
  store_reserve-IsQuiet signer rec = record {
    history = λ w0. History-append (others w0.awaits w0.db) (
        commit-History (tick_world e w0)
          (reserve_signer_for_record (tick_world e w0).db signer rec
            (e.rpc.uuid (tick_world e w0).awaits))
          (λ t db h.
            reserves signer rec.id (e.rpc.uuid (tick_world e w0).awaits) t (some rec.version) h));
    sent = λ w0. commit-sent (tick_world e w0) (
        reserve_signer_for_record (tick_world e w0).db signer rec
          (e.rpc.uuid (tick_world e w0).awaits));
  }

  pub store_cancel-IsQuiet : (signer job token : String) → IsQuiet (store_cancel e signer job token)
  unfolding store_cancel
  store_cancel-IsQuiet signer job token = record {
    history = λ w0.
        History-append (others w0.awaits w0.db)
          (commit_db-History (tick_world e w0) _ (λ db h. cancels signer job token h));
    sent = λ w0. commit_db-sent (tick_world e w0) _;
  }

  pub announce-IsQuiet : (st : PaymentStatus) → IsQuiet (announce st)
  unfolding announce
  announce-IsQuiet st = record { history = λ w. opened; sent = λ w. refl }

  ruleset store_rules = (
    quiet_rules, ask-IsQuiet, now-IsQuiet, store_update-IsQuiet, store_get-IsQuiet,
    store_reserve-IsQuiet, store_cancel-IsQuiet, announce-IsQuiet,
  )

  accept_prepared-IsQuiet :
      (signer job reservation : String) (answer : Result PreparedTx)
      → IsQuiet (accept_prepared e signer job reservation answer)
  unfolding accept_prepared
  accept_prepared-IsQuiet signer job reservation (ok prepared) = search store_rules
  accept_prepared-IsQuiet signer job reservation (err error) = search store_rules

  pub journal-IsQuiet :
      (r : PaymentRecord) (action : Action) (call : ChainCall) (signer : AccountId)
      → IsQuiet (journal e r action call signer)
  unfolding journal
  journal-IsQuiet r action call signer = search (store_rules, accept_prepared-IsQuiet) depth 12

  -- The journal of the prepared transaction is in the tables.
  abbrev HasJournal : PaymentRecord × PreparedTx → World → Type 0
  HasJournal (stored, prepared) w = IsJournaledIn w.db stored.id prepared

  commit-update :
      (w : World) (rec : PaymentRecord) (t : ℕ) (q : PendingTx)
      → rec.pending ≡ some q
      → (r : Result (PaymentRecord × Db)) → update w.db rec t ≡ r
      → (a : PaymentRecord) → (commit e w r).0 ≡ ok a
      → pending_of a.id (commit e w r).1.db ≡ some q
  unfolding get
  commit-update w rec t q hq (ok (next, db')) h a ha =
      let (g, n, _) = get-update w.db rec next t db' h in ground (arith, g, n)
  commit-update w rec t q hq (err x) h a ha = cc

  update_pending :
      (rec : PaymentRecord) (q : PendingTx)
      → rec.pending ≡ some q
      → Ends (store_update e rec) (λ a w. pending_of a.id w.db ≡ some q)
  unfolding store_update
  update_pending rec q hq = record {
    holds = λ w.
        commit-update (tick_world e w) rec (e.rpc.now (tick_world e w).awaits) q hq
          (update (tick_world e w).db rec (e.rpc.now (tick_world e w).awaits)) refl;
  }

  update_journals :
      (r : PaymentRecord) (action : Action) (reservation : String) (prepared : PreparedTx)
      (call : ChainCall)
      → Ends
          (store_update e
              (record r { pending = some (journal_entry action reservation prepared call) })
            >>= λ stored. pure (stored, prepared))
          HasJournal
  update_journals r action reservation prepared call =
      let q = journal_entry action reservation prepared call in
      ends_map (λ stored. (stored, prepared)) (λ a w. pending_of a.id w.db ≡ some q) HasJournal
        (λ a w h. (q, h, refl, refl, refl)) (update_pending (record r { pending = some q }) q refl)

  journal-HasJournal :
      (r : PaymentRecord) (action : Action) (call : ChainCall) (signer : AccountId)
      → Ends (journal e r action call signer) HasJournal
  unfolding journal
  journal-HasJournal r action call signer = ends_bind _ HasJournal λ _.
      ends_bind _ HasJournal λ reservation. ends_bind _ HasJournal λ answer.
        ends_bind _ HasJournal λ prepared. update_journals r action reservation prepared call

  submitted-IsQuiet :
      (finalized : FinalizedTx) (r : PaymentRecord) → IsQuiet (submitted e r finalized)
  unfolding submitted
  submitted-IsQuiet finalized r = search store_rules

  submit_and_watch-Sends :
      (job : String) (called : Db) (tx : PreparedTx) (w : World)
      → IsJournaledIn called job tx
      → History called w.db
      → History w.db (submit_and_watch e job called tx w).1.db
        × Sends w.sent (submit_and_watch e job called tx w).1.sent
  unfolding submit_and_watch ask
  submit_and_watch-Sends job called tx w j h =
      let b : Broadcast = record { job = job; tx = tx; called = called; stored = w.db } in
      (others w.awaits w.db, inr (b, refl, (j, History-Since job j.0 h j.1)))

  -- A call of `broadcast` that finds the journal in the tables.
  broadcast-Sends :
      (job : String) (tx : PreparedTx) (w : World)
      → IsJournaledIn w.db job tx
      → History w.db (broadcast e job tx w).1.db × Sends w.sent (broadcast e job tx w).1.sent
  unfolding broadcast ask ◌>>=◌
  broadcast-Sends job tx w j =
      let waited = tick_world e w in
      elim (Result-cases (e.rpc.at_current_block w.awaits)) [
        | inl (x, failed) ↦ rw failed (others w.awaits w.db, inl refl)
        | inr (u, found) ↦
            let (h, s) = submit_and_watch-Sends job w.db tx waited j (others w.awaits w.db) in
            rw found (History-append (others w.awaits w.db) h, s)
      ]

  submit-Sends :
      (a : PaymentRecord × PreparedTx) (w : World)
      → HasJournal a w
      → History w.db (submit e a w).1.db × Sends w.sent (submit e a w).1.sent
  unfolding submit ◌>>=◌
  submit-Sends (stored, prepared) w h =
      let f = submitted e stored in
      let (r, w') = broadcast e stored.id prepared w in
      let (history, sends) = broadcast-Sends stored.id prepared w h in
      (
        bind-History f w w' r history (λ x. (submitted-IsQuiet x stored).history w'),
        bind_last-Sends f w w' r sends (λ x. (submitted-IsQuiet x stored).sent w'),
      )

  -- `send_journaled` sends at most one transaction, and its journal is in the tables before.
  pub send_journaled-IsCareful :
      (r : PaymentRecord) (action : Action) (call : ChainCall) (signer : AccountId)
      → IsCareful (send_journaled e r action call signer)
  unfolding send_journaled
  send_journaled-IsCareful r action call signer =
      after-IsCareful (submit e) HasJournal submit-Sends (journal-IsQuiet r action call signer)
        (journal-HasJournal r action call signer)

pub ruleset effect_rules = (
  quiet_rules, ask-IsQuiet, now-IsQuiet, store_update-IsQuiet, store_get-IsQuiet, announce-IsQuiet,
)
