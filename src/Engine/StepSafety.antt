-- ===== src/Engine/StepSafety.antt =====
-- `step` of src/engine.rs, as a whole: it uses the store by its operations only, and sends at most one
-- transaction, journaled before.
use buyback.Base.{ℕ, zero, suc, String, Bool, Option, none, some}
use buyback.Chain.{PendingTx}
use buyback.State.{
  PaymentState, PaymentRecord, PaymentStatus, pending, detected, funded, swept, settled, failed,
  expired,
}
use buyback.Error.{Error, Result, ok, err}
use buyback.Keys.{Ss58}
use buyback.Store.Fence.{IsFenced}
use buyback.Store.History.{History-IsFenced}
use buyback.Engine.Env.{Engine, World, Async}
use buyback.Engine.Trace.{
  IsQuiet, IsCareful, Sends, quiet_rules, bind-IsCareful, then-IsCareful, IsQuiet-IsCareful,
  attempt-IsCareful, if-IsCareful,
}
use buyback.Engine.Safety.{RunsOthers, effect_rules}
use buyback.Engine.Journal.{reconcile_journaled, write_resolved}
use buyback.Engine.Steps.{Positions}
use buyback.Engine.Sweep.{settle, return_dust, consolidate_round, consolidate, step_swept}
use buyback.Engine.Driver.{
  deliver, notify, resolve_pending, count_failure, after_action, dispatch, drive, step, act,
}
use buyback.Engine.Careful.{
  step_funded-IsCareful, send-IsCareful, announce_if_final-IsQuiet, wallet-IsQuiet,
  step_pending-IsQuiet, step_detected-IsCareful, step_auto_buyback-IsCareful,
}

module _ ⦃codec : Ss58⦄ (e : Engine) (others : RunsOthers e) where
  module _ (notify' : PaymentRecord → Async (Unit {0}))
      (quiet_notify' : (r : PaymentRecord) → IsQuiet (notify' r)) where
    settle-IsCareful : (r : PaymentRecord) → IsCareful (settle e notify' r)
    unfolding settle
    settle-IsCareful r =
        search
          (
            bind-IsCareful, if-IsCareful, IsQuiet-IsCareful, effect_rules, quiet_notify',
            step_auto_buyback-IsCareful,
          )
          depth 12

    return_dust-IsCareful : (r : PaymentRecord) → IsCareful (return_dust e notify' r)
    unfolding return_dust
    return_dust-IsCareful r =
        search
          (
            bind-IsCareful, if-IsCareful, effect_rules, wallet-IsQuiet, send-IsCareful,
            settle-IsCareful,
          )
          depth 9

    consolidate_round-IsCareful :
        (rest : PaymentRecord → Async Bool) (r : PaymentRecord) (h : Option String)
        → ((s : PaymentRecord) → IsCareful (rest s))
        → IsCareful (consolidate_round e notify' rest r h)
    unfolding consolidate_round
    consolidate_round-IsCareful rest r none k = return_dust-IsCareful r
    consolidate_round-IsCareful rest r (some h) k =
        search (bind-IsCareful, if-IsCareful, effect_rules, send-IsCareful, k) depth 9

    consolidate-IsCareful :
        (fuel : ℕ) (r : PaymentRecord) → IsCareful (consolidate e notify' fuel r)
    unfolding consolidate
    consolidate-IsCareful zero r = return_dust-IsCareful r
    consolidate-IsCareful (suc fuel) r =
        consolidate_round-IsCareful _ r _ (consolidate-IsCareful fuel)

    step_swept-IsCareful : (r : PaymentRecord) → IsCareful (step_swept e notify' r)
    unfolding step_swept
    step_swept-IsCareful r = search (if-IsCareful, consolidate-IsCareful, return_dust-IsCareful)

  deliver-IsQuiet :
      (url : Option String) (post : Option (ℕ → String → PaymentStatus → Result (Unit {0})))
      (r : PaymentRecord)
      → IsQuiet (deliver e url post r)
  unfolding deliver
  deliver-IsQuiet (some url) (some post) r = search effect_rules
  deliver-IsQuiet (some url) none r = search quiet_rules
  deliver-IsQuiet none post r = search quiet_rules

  notify-IsQuiet : (r : PaymentRecord) → IsQuiet (notify e r)
  unfolding notify
  notify-IsQuiet r = search (effect_rules, deliver-IsQuiet) depth 9

  write_resolved-IsQuiet :
      (r : PaymentRecord) (next : Option PaymentRecord) → IsQuiet (write_resolved e r next)
  unfolding write_resolved
  write_resolved-IsQuiet r none = search quiet_rules
  write_resolved-IsQuiet r (some next) = search effect_rules

  reconcile_journaled-IsQuiet :
      (r : PaymentRecord) (p : PendingTx) (max_attempts : ℕ)
      → IsQuiet (reconcile_journaled e r p max_attempts)
  unfolding reconcile_journaled
  reconcile_journaled-IsQuiet r p max_attempts =
      search (effect_rules, write_resolved-IsQuiet) depth 9

  pub resolve_pending-IsQuiet :
      (r : PaymentRecord) (p : PendingTx) → IsQuiet (resolve_pending e r p)
  unfolding resolve_pending
  resolve_pending-IsQuiet r p =
      search (effect_rules, reconcile_journaled-IsQuiet, announce_if_final-IsQuiet) depth 9

  count_failure-IsQuiet : (id : String) (error : Error) → IsQuiet (count_failure e id error)
  unfolding count_failure
  count_failure-IsQuiet id error = search (effect_rules, announce_if_final-IsQuiet) depth 12

  after_action-IsQuiet : (id : String) (answer : Result Bool) → IsQuiet (after_action e id answer)
  unfolding after_action
  after_action-IsQuiet id (ok changed) = search quiet_rules
  after_action-IsQuiet id (err (Error.conflict x)) = search quiet_rules
  after_action-IsQuiet id (err error) = search count_failure-IsQuiet

  act-IsCareful :
      (action : Async Bool) (id : String) → IsCareful action → IsCareful (act e action id)
  act-IsCareful action id c = then-IsCareful (attempt-IsCareful c) (after_action-IsQuiet id)

  dispatch-IsCareful :
      (s : PaymentState) (r : PaymentRecord) (positions : Positions)
      → IsCareful (dispatch e s r positions)
  unfolding dispatch
  dispatch-IsCareful pending r positions =
      IsQuiet-IsCareful (step_pending-IsQuiet e others r positions)
  dispatch-IsCareful detected r positions =
      act-IsCareful _ r.id (step_detected-IsCareful e others r)
  dispatch-IsCareful funded r positions = act-IsCareful _ r.id (step_funded-IsCareful e others r)
  dispatch-IsCareful swept r positions =
      act-IsCareful _ r.id (step_swept-IsCareful (notify e) notify-IsQuiet r)
  dispatch-IsCareful settled r positions = IsQuiet-IsCareful (search (effect_rules, notify-IsQuiet))
  dispatch-IsCareful failed r positions = IsQuiet-IsCareful (search quiet_rules)
  dispatch-IsCareful expired r positions = IsQuiet-IsCareful (search quiet_rules)

  drive-IsCareful :
      (p : Option PendingTx) (r : PaymentRecord) (positions : Positions)
      → IsCareful (drive e p r positions)
  unfolding drive
  drive-IsCareful (some p) r positions = IsQuiet-IsCareful (resolve_pending-IsQuiet r p)
  drive-IsCareful none r positions = search (bind-IsCareful, effect_rules, dispatch-IsCareful)

  pub step-IsCareful : (r : PaymentRecord) (positions : Positions) → IsCareful (step e r positions)
  unfolding step
  step-IsCareful r positions =
      search (bind-IsCareful, if-IsCareful, IsQuiet-IsCareful, effect_rules, drive-IsCareful) depth
        8

-- One step of the engine, in any state and whatever the chain answers, while other processes use
-- the same store by its operations only: at most one transaction is broadcast. The tables hold its journal
-- when the engine calls for the broadcast, and when the bytes leave, one await later, they hold it still
-- unless an update of the job has closed it since.
pub step-Sends :
    ⦃codec : Ss58⦄ (e : Engine) (r : PaymentRecord) (positions : Positions) (w : World)
    → RunsOthers e
    → Sends w.sent (step e r positions w).1.sent
step-Sends e r positions w others = (step-IsCareful e others r positions).sends w

-- A step keeps every unresolved journal fenced by a reservation of its signer, also when other
-- processes use the same store by its operations meanwhile.
pub step-IsFenced :
    ⦃codec : Ss58⦄ (e : Engine) (r : PaymentRecord) (positions : Positions) (w : World)
    → RunsOthers e
    → IsFenced w.db
    → IsFenced (step e r positions w).1.db
step-IsFenced e r positions w others f =
    History-IsFenced ((step-IsCareful e others r positions).history w) f
