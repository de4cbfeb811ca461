-- ===== src/Engine/Held.antt =====
-- When `step` of src/engine.rs holds back: a record with an unresolved journal, one that is fenced off
-- for repair, and one of another treasury or chain.
use buyback.Base.{true, Option, none, some, is_some, ◌≡◌, ◌≢◌, arith}
use buyback.Chain.{PendingTx}
use buyback.State.{PaymentRecord, identity_eq}
use buyback.Error.{Error, ok, err}
use buyback.Keys.{Ss58}
use buyback.Engine.Env.{Engine, World, ◌>>=◌, lift, pure}
use buyback.Engine.Trace.{IsQuiet, quiet_rules, bind-IsQuiet, if-IsQuiet}
use buyback.Engine.Safety.{RunsOthers}
use buyback.Engine.StepSafety.{resolve_pending-IsQuiet}
use buyback.Engine.Steps.{Positions}
use buyback.Engine.Driver.{step, drive, job_identity}

module _ ⦃codec : Ss58⦄ (e : Engine) where
  -- The step of a record of this engine's identity that is not quarantined.
  step-drive :
      (r : PaymentRecord) (positions : Positions) (w : World)
      → r.identity ≡ some (job_identity e)
      → r.quarantined ≡ none
      → step e r positions w ≡ drive e r.pending r positions w
  unfolding step ◌>>=◌ lift
  step-drive r positions w i q = ground (arith, i, q)

  -- The step of a record that is fenced off for repair changes nothing and reports no change.
  pub step_quarantined :
      (r : PaymentRecord) (p : PendingTx) (positions : Positions) (w : World)
      → r.quarantined ≡ some p
      → ((step e r positions w).1 ≡ w) × ((step e r positions w).0 ≢ ok true)
  unfolding step ◌>>=◌ lift pure
  step_quarantined r p positions w q = (ground (arith, q), λ h. ground (arith, q, h))

  -- The step of a job with another execution identity is refused, and the world stays as it is.
  pub step_foreign :
      (r : PaymentRecord) (positions : Positions) (w : World)
      → r.identity ≢ some (job_identity e)
      → step e r positions w
        ≡ (err (Error.config "job execution identity missing or mismatched"), w)
  unfolding step ◌>>=◌ lift
  step_foreign r positions w n = ground (arith, n)

  drive_unresolved-IsQuiet :
      (r : PaymentRecord) (p : PendingTx) (positions : Positions) (q : Option PendingTx)
      → RunsOthers e
      → q ≡ some p
      → IsQuiet (drive e q r positions)
  unfolding drive
  drive_unresolved-IsQuiet r p positions none others h = cc
  drive_unresolved-IsQuiet r p positions (some p') others h = resolve_pending-IsQuiet e others r p'

  step_unresolved-IsQuiet :
      (r : PaymentRecord) (p : PendingTx) (positions : Positions)
      → RunsOthers e
      → r.pending ≡ some p
      → IsQuiet (step e r positions)
  unfolding step
  step_unresolved-IsQuiet r p positions others h = bind-IsQuiet (search quiet_rules) (λ _.
      if-IsQuiet (is_some r.quarantined) (search quiet_rules)
        (drive_unresolved-IsQuiet r p positions r.pending others h))

-- The step of a payment whose journal is unresolved broadcasts nothing, whatever the chain
-- answers, if other processes use the store by its operations only.
pub step_unresolved :
    ⦃codec : Ss58⦄ (e : Engine) (r : PaymentRecord) (p : PendingTx) (positions : Positions)
    (w : World)
    → RunsOthers e
    → r.pending ≡ some p
    → (step e r positions w).1.sent ≡ w.sent
step_unresolved e r p positions w others h =
    (step_unresolved-IsQuiet e r p positions others h).sent w
