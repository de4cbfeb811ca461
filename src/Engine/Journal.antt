-- ===== src/Engine/Journal.antt =====
-- `send_journaled` and `reconcile_journaled` of src/engine.rs: every transaction is written to its
-- record before it is broadcast, and an unresolved one is settled by what the finalized chain says.
use buyback.Base.{
  ℕ, String, Bool, true, false, [], ◌∷◌, ◌++◌, Option, none, some, not, is_some, ◌=?◌, string_eq,
  push_str, if◌then◌else◌,
}
use buyback.Chain.{
  AccountId, Action, ChainCall, PendingTx, PreparedTx, FinalizedTx, TxRef, PendingOutcome,
  pending_tx_eq, amount, action_name,
}
use buyback.State.{PaymentRecord}
use buyback.State.Moves.{record_failure}
use buyback.Error.{Error, Result, ok, err, fail_if, to_string}
use buyback.Keys.{Ss58, ss58}
use buyback.Engine.Env.{
  Engine, Async, ◌>>=◌, ◌>>◌, lift, pure, throw, attempt, ask, now, store_update, store_reserve,
  store_cancel, broadcast,
}
use buyback.Engine.Apply.{apply}

-- The journal entry of a prepared transaction.
abbrev pub journal_entry : Action → String → PreparedTx → ChainCall → PendingTx
journal_entry action reservation prepared call = record {
  action = action;
  reservation = some reservation;
  signer = prepared.signer;
  nonce = prepared.nonce;
  tx_hash = prepared.tx_hash;
  birth_block = prepared.birth_block;
  amount = amount call;
}

module _ ⦃codec : Ss58⦄ (e : Engine) where
  -- The preparation has come to nothing: its reservation is given back.
  unfoldable pub give_up : {A : Type 0} → (signer job reservation : String) → Error → Async A
  give_up signer job reservation error = store_cancel e signer job reservation >> throw error

  -- The answer to `prepare`, accepted only from the signer that is reserved.
  unfoldable pub accept_prepared :
      (signer job reservation : String) → Result PreparedTx → Async PreparedTx
  unfolding give_up
  accept_prepared signer job reservation (err error) = give_up signer job reservation error
  accept_prepared signer job reservation (ok prepared) =
      if not (prepared.signer =? signer)
      then give_up signer job reservation (Error.store "prepared signer mismatch")
      else pure prepared

  -- The part of `send_journaled` up to the durable journal.
  unfoldable pub journal :
      PaymentRecord → Action → ChainCall → AccountId → Async (PaymentRecord × PreparedTx)
  unfolding accept_prepared
  journal r action call signer = do
    lift (
        fail_if (is_some r.pending)
          (Error.store "reconcile pending transaction before preparing another"))
    reservation ← store_reserve e (ss58 signer) r
    answer ← attempt (ask e (λ n. e.rpc.prepare n call signer))
    prepared ← accept_prepared (ss58 signer) r.id reservation answer
    stored ←
        store_update e
          (record r { pending = some (journal_entry action reservation prepared call) })
    pure (stored, prepared)

  -- What follows a broadcast: its result applied, and written.
  unfoldable pub submitted : PaymentRecord → FinalizedTx → Async PaymentRecord
  submitted stored finalized = do
    applied ← lift (apply stored finalized.tx finalized.summary)
    store_update e applied

  -- The rest of `send_journaled`: the broadcast and its result.
  unfoldable pub submit : PaymentRecord × PreparedTx → Async PaymentRecord
  unfolding submitted
  submit (stored, prepared) = broadcast e stored.id prepared >>= submitted stored

  -- `send_journaled`; it returns the record that `*r` becomes.
  unfoldable pub send_journaled :
      PaymentRecord → Action → ChainCall → AccountId → Async PaymentRecord
  unfolding journal submit
  send_journaled r action call signer = journal r action call signer >>= submit

-- The receipt that `reconcile_journaled` writes for an included transaction.
abbrev pub receipt : PendingTx → String → TxRef
receipt p block_hash = record {
  action = action_name p.action;
  tx_hash = p.tx_hash;
  block_hash = block_hash;
  amount = p.amount;
}

-- A finalized transaction whose events do not fit: the job is fenced off for repair.
abbrev pub quarantine : PaymentRecord → PendingTx → TxRef → Error → ℕ → PaymentRecord
quarantine r p tx error now =
    record_failure (record r { pending = none; quarantined = some p; txs = r.txs ++ tx ∷ [] })
      (push_str "finalized receipt mismatch: " (to_string error)) 1 now

abbrev pub apply_or_quarantine :
    PaymentRecord → PendingTx → TxRef → ℕ → Result PaymentRecord → PaymentRecord
apply_or_quarantine r p tx t (ok applied) = applied
apply_or_quarantine r p tx t (err error) = quarantine r p tx error t

-- The record that an outcome makes of `r`; `none` while there is nothing to write.
unfoldable pub resolved :
    PaymentRecord → PendingTx → (max_attempts now : ℕ) → PendingOutcome → Option PaymentRecord
resolved r p max_attempts t PendingOutcome.wait = none
resolved r p max_attempts t PendingOutcome.dead = some (record r { pending = none })
resolved r p max_attempts t (PendingOutcome.included block_hash summary) =
    let tx = receipt p block_hash in
    some (
      if summary.failed
      then record_failure (record r { pending = none })
          "journaled transaction failed on finalized chain" max_attempts t
      else apply_or_quarantine r p tx t (apply r tx summary))

module _ (e : Engine) where
  -- The write that ends `reconcile_journaled`, with the record that `*r` becomes.
  unfoldable pub write_resolved :
      PaymentRecord → Option PaymentRecord → Async (Bool × PaymentRecord)
  write_resolved r none = pure (false, r)
  write_resolved r (some next) = do stored ← store_update e next; pure (true, stored)

  -- `reconcile_journaled`
  unfoldable pub reconcile_journaled :
      PaymentRecord → PendingTx → (max_attempts : ℕ) → Async (Bool × PaymentRecord)
  unfolding write_resolved resolved
  reconcile_journaled r p max_attempts = do
    lift (fail_if (not (r.pending =? some p)) (Error.store "pending journal mismatch"))
    outcome ← ask e (λ n. e.rpc.find_pending n p)
    t ← now e
    write_resolved r (resolved r p max_attempts t outcome)
