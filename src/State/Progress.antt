-- ===== src/State/Progress.antt =====
-- How far a payment has come, and that `transition` and `record_failure` (src/state.rs) never
-- take it back.
use buyback.Base.{ℕ, ◌≤◌, ◌≡◌, refl, Option, none, some, arith, String, true, false, ◌⊎◌, Bool}
use buyback.State.{
  PaymentState, PaymentRecord, pending, detected, funded, swept, settled, failed, expired,
}
use buyback.State.Moves.{transition, record_failure, moved}
use buyback.Error.{ok}

-- The steps of a payment that are behind it.
abbrev pub rank : PaymentState → ℕ
rank pending = 0
rank detected = 1
rank funded = 2
rank swept = 3
rank settled = 4
rank failed = 0
rank expired = 0

abbrev pub rank_failed : Option PaymentState → ℕ
rank_failed none = 0
rank_failed (some s) = rank s

-- The progress of a record; a failed one keeps the progress of the step that it failed in.
abbrev pub progress_at : PaymentState → Option PaymentState → ℕ
progress_at failed from = rank_failed from
progress_at s from = rank s

abbrev pub progress : PaymentRecord → ℕ
progress r = progress_at r.state r.failed_from

-- A successful transition never lowers the progress.
pub transition-progress :
    (r : PaymentRecord) (to : PaymentState) {r' : PaymentRecord}
    → transition r to ≡ ok r'
    → progress r ≤ progress r'
unfolding transition
transition-progress r to h = ground arith

-- A recorded failure leaves the progress as it is.
pub record_failure-progress :
    (r : PaymentRecord) (e : String) (max_attempts now : ℕ)
    → progress (record_failure r e max_attempts now) ≡ progress r
unfolding record_failure
record_failure-progress r e max_attempts now = ground arith

-- The life of a record under the two functions.
pub data Evolves (r : PaymentRecord) : PaymentRecord → Type 0 where
  start : Evolves r r
  moves :
      {s t : PaymentRecord}
      → Evolves r s
      → (to : PaymentState) → transition s to ≡ ok t
      → Evolves r t
  fails :
      {s : PaymentRecord}
      → Evolves r s
      → (e : String) (max_attempts now : ℕ) → Evolves r (record_failure s e max_attempts now)

-- Over any run of transitions and failures the progress of a payment never falls.
pub Evolves-progress : {r s : PaymentRecord} → Evolves r s → progress r ≤ progress s
Evolves-progress start = omega arith
Evolves-progress (moves {s = s} run to h) =
    omega (arith, Evolves-progress run, transition-progress s to h)
Evolves-progress (fails {s = s} run e max_attempts now) =
    omega (arith, Evolves-progress run, record_failure-progress s e max_attempts now)

-- The sweep of a payment is behind it.
abbrev pub IsPastSweep : PaymentRecord → Type 0
IsPastSweep r =
    (r.state ≡ swept) ⊎ (r.state ≡ settled) ⊎ ((r.state ≡ failed) × (r.failed_from ≡ some swept))

transition-IsPastSweep :
    (r : PaymentRecord) (to : PaymentState) {r' : PaymentRecord}
    → transition r to ≡ ok r'
    → IsPastSweep r
    → IsPastSweep r'
unfolding transition
transition-IsPastSweep r to h p = ground arith

record_failure-IsPastSweep :
    (r : PaymentRecord) (e : String) (max_attempts now : ℕ)
    → IsPastSweep r
    → IsPastSweep (record_failure r e max_attempts now)
unfolding record_failure
record_failure-IsPastSweep r e max_attempts now p = ground arith

-- Once swept, a payment is swept, settled, or failed in the swept step, whatever transitions and
-- failures follow.
pub Evolves-IsPastSweep : {r s : PaymentRecord} → Evolves r s → IsPastSweep r → IsPastSweep s
Evolves-IsPastSweep start p = p
Evolves-IsPastSweep (moves {s = s} run to h) p =
    transition-IsPastSweep s to h (Evolves-IsPastSweep run p)
Evolves-IsPastSweep (fails {s = s} run e max_attempts now) p =
    record_failure-IsPastSweep s e max_attempts now (Evolves-IsPastSweep run p)

-- Whether a failed record knows a step that it can resume.
abbrev can_resume : Option PaymentState → Bool
can_resume (some pending) = true
can_resume (some detected) = true
can_resume (some funded) = true
can_resume (some swept) = true
can_resume _ = false

abbrev pub IsResumable : PaymentRecord → Type 0
IsResumable r = r.state ≡ failed → can_resume r.failed_from ≡ true

transition-IsResumable :
    (r : PaymentRecord) (to : PaymentState) {r' : PaymentRecord}
    → transition r to ≡ ok r'
    → IsResumable r
    → IsResumable r'
unfolding transition
transition-IsResumable r to h p = ground arith

record_failure-IsResumable :
    (r : PaymentRecord) (e : String) (max_attempts now : ℕ)
    → IsResumable r
    → IsResumable (record_failure r e max_attempts now)
unfolding record_failure
record_failure-IsResumable r e max_attempts now p = ground arith

pub Evolves-IsResumable : {r s : PaymentRecord} → Evolves r s → IsResumable r → IsResumable s
Evolves-IsResumable start p = p
Evolves-IsResumable (moves {s = s} run to h) p =
    transition-IsResumable s to h (Evolves-IsResumable run p)
Evolves-IsResumable (fails {s = s} run e max_attempts now) p =
    record_failure-IsResumable s e max_attempts now (Evolves-IsResumable run p)

-- A record reached by transitions alone.
pub data Reaches (r : PaymentRecord) : PaymentRecord → Type 0 where
  here : Reaches r r
  next :
      {s t : PaymentRecord}
      → Reaches r s
      → (to : PaymentState) → transition s to ≡ ok t
      → Reaches r t

abbrev pub CanSettle : PaymentRecord → Type 0
CanSettle r = (t : PaymentRecord) × Reaches r t × (t.state ≡ settled)

settle_swept : {r s : PaymentRecord} → Reaches r s → s.state ≡ swept → CanSettle r
unfolding transition
settle_swept {s = s} run h = (moved s settled, next run settled (ground arith), refl)

settle_funded : {r s : PaymentRecord} → Reaches r s → s.state ≡ funded → CanSettle r
unfolding transition
settle_funded {s = s} run h = settle_swept (next {t = moved s swept} run swept (ground arith)) refl

settle_detected : {r s : PaymentRecord} → Reaches r s → s.state ≡ detected → CanSettle r
unfolding transition
settle_detected {s = s} run h =
    settle_funded (next {t = moved s funded} run funded (ground arith)) refl

settle_waiting : (r : PaymentRecord) → transition r detected ≡ ok (moved r detected) → CanSettle r
settle_waiting r h = settle_detected (next here detected h) refl

settle_failed :
    (r : PaymentRecord) (from : Option PaymentState)
    → r.state ≡ failed
    → r.failed_from ≡ from
    → can_resume from ≡ true
    → CanSettle r
unfolding transition
settle_failed r (some pending) h k p = settle_waiting r (ground arith)
settle_failed r (some detected) h k p = settle_waiting r (ground arith)
settle_failed r (some funded) h k p =
    settle_funded (next {t = moved r funded} here funded (ground arith)) refl
settle_failed r (some swept) h k p =
    settle_swept (next {t = moved r swept} here swept (ground arith)) refl
settle_failed r (some settled) h k p = cc
settle_failed r (some failed) h k p = cc
settle_failed r (some expired) h k p = cc
settle_failed r none h k p = cc

settle_from : (r : PaymentRecord) (s : PaymentState) → r.state ≡ s → IsResumable r → CanSettle r
unfolding transition
settle_from r pending h p = settle_waiting r (ground arith)
settle_from r detected h p = settle_detected here h
settle_from r funded h p = settle_funded here h
settle_from r swept h p = settle_swept here h
settle_from r settled h p = (r, here, h)
settle_from r expired h p = settle_waiting r (ground arith)
settle_from r failed h p = settle_failed r r.failed_from h refl (p h)

-- Whatever transitions and failures a payment has had that began in `pending` or `detected`,
-- there are transitions that lead it on to `settled`.
pub Evolves-CanSettle :
    {r s : PaymentRecord} → (r.state ≡ pending) ⊎ (r.state ≡ detected) → Evolves r s → CanSettle s
Evolves-CanSettle {s = s} begun run =
    settle_from s s.state refl (Evolves-IsResumable run (ground arith))
