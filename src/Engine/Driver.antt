-- ===== src/Engine/Driver.antt =====
-- `notify`, `resolve_pending`, `step` and `tick` of src/engine.rs: one pass over the open payments.
use buyback.Base.{
  ℕ, ◌+◌, String, Bool, true, false, Option, none, some, ◌&&◌, ◌||◌, not, is_some, is_none, ◌=?◌,
  wrap_u64, if◌then◌else◌,
}
use buyback.Chain.{PendingTx}
use buyback.State.{
  PaymentState, PaymentRecord, PaymentStatus, JobIdentity, status, payment_state_eq, option_bool_eq,
  identity_eq, pending, detected, funded, swept, settled, failed, expired,
}
use buyback.State.Moves.{record_failure}
use buyback.Error.{Error, Result, ok, err, fail_if, ok_or, to_string, is_ok}
use buyback.Keys.{Ss58, ss58}
use buyback.Engine.Env.{
  Engine, Async, ◌>>=◌, ◌>>◌, lift, pure, throw, attempt, ask, now, announce, store_update,
  store_get,
}
use buyback.Engine.Journal.{reconcile_journaled}
use buyback.Engine.Steps.{Positions, announce_if_final, step_pending}
use buyback.Engine.Sweep.{step_detected, step_funded, step_swept}

module _ ⦃codec : Ss58⦄ (e : Engine) where
  -- The webhook of a settled payment: whether a delivery failed and is to be tried again.
  unfoldable pub deliver :
      Option String
      → Option (ℕ → String → PaymentStatus → Result (Unit {0}))
      → PaymentRecord
      → Async Bool
  deliver (some url) (some post) r = do
    answer ← attempt (ask e (λ n. post n url (status r)))
    pure (not (is_ok answer))
  deliver _ _ r = pure false

  -- `notify`
  unfoldable pub notify : PaymentRecord → Async (Unit {0})
  unfolding deliver
  notify r = do
    announce (status r)
    again ← deliver r.callback_url e.rpc.post_webhook r
    t ← now e
    store_update e (
        if again
        then record r { next_attempt_at = wrap_u64 (t + 30) }
        else record r { notified = true })
    pure tt

  -- `job_identity`
  abbrev pub job_identity : JobIdentity
  job_identity = record {
    genesis_hash = e.rpc.genesis_hash;
    treasury = ss58 e.treasury;
    treasury_hotkey = ss58 e.cfg.treasury_hotkey;
    consolidate = e.cfg.consolidate;
    return_dust = e.cfg.return_dust;
  }

  -- `resolve_pending`
  unfoldable pub resolve_pending : PaymentRecord → PendingTx → Async Bool
  resolve_pending r p = do
    (changed, r') ← reconcile_journaled e r p e.cfg.max_attempts
    if changed then (do announce_if_final e r'; pure true) else pure false

  -- What `step` does with the error of a failed action: it is counted on the stored record, unless its
  -- journal is unresolved.
  unfoldable pub count_failure : String → Error → Async Bool
  count_failure id error = do
    found ← store_get e id
    cur ← lift (ok_or found (Error.not_found id))
    if is_some cur.pending then throw error else (do
      t ← now e
      stored ← store_update e (record_failure cur (to_string error) e.cfg.max_attempts t)
      announce_if_final e stored
      throw error)

  -- The `match res` of `step`; a conflict is passed on as it is.
  unfoldable pub after_action : String → Result Bool → Async Bool
  unfolding count_failure
  after_action id (ok changed) = pure changed
  after_action id (err (Error.conflict x)) = throw (Error.conflict x)
  after_action id (err error) = count_failure id error

  -- The action of a state whose failures are counted.
  abbrev pub act : Async Bool → String → Async Bool
  act action id = do answer ← attempt action; after_action id answer

  -- The `match r.state` of `step`.
  unfoldable pub dispatch : PaymentState → PaymentRecord → Positions → Async Bool
  unfolding after_action
  dispatch pending r positions = step_pending e r positions
  dispatch detected r positions = act (step_detected e r) r.id
  dispatch funded r positions = act (step_funded e r) r.id
  dispatch swept r positions = act (step_swept e notify r) r.id
  dispatch settled r positions = do notify r; pure true
  dispatch failed r positions = pure false
  dispatch expired r positions = pure false

  -- Whether a record without a journal lacks the policy that a step needs.
  abbrev pub lacks_policy : PaymentRecord → Bool
  lacks_policy r =
      is_none r.auto_required || (r.auto_required =? some true && is_none r.buyback_budget)

  -- `step`, on a record that is not quarantined.
  unfoldable pub drive : Option PendingTx → PaymentRecord → Positions → Async Bool
  unfolding dispatch
  drive (some p) r positions = resolve_pending r p
  drive none r positions = do
    lift (fail_if (lacks_policy r) (Error.config "job policy migration required before processing"))
    dispatch r.state r positions

  -- `step`
  unfoldable pub step : PaymentRecord → Positions → Async Bool
  unfolding drive
  step r positions = do
    lift (
        fail_if (not (r.identity =? some job_identity))
          (Error.config "job execution identity missing or mismatched"))
    if is_some r.quarantined then pure false else drive r.pending r positions
