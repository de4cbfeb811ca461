-- ===== src/State/Moves.antt =====
-- The two functions of src/state.rs that move a record through the states: `transition` and
-- `record_failure`. A method that takes `&mut self` returns the record that it leaves.
use buyback.Base.{
  ℕ, ◌+◌, ◌*◌, ◌^◌, min, String, none, some, not, ◌&&◌, ◌||◌, ◌=?◌, leb, wrap_u32, wrap_u64,
  if◌then◌else◌, take_chars, Bool,
}
use buyback.State.{
  PaymentState, PaymentRecord, can_transition, payment_state_eq, option_payment_state_eq,
  PaymentState-discrete, Option-PaymentState-discrete,
}
use buyback.Error.{Error, Result, ok, err}

-- Whether a record may enter `to` if it has failed: only the step that it failed in is resumed.
abbrev pub resume_ok : PaymentRecord → PaymentState → Bool
resume_ok r to =
    not (r.state =? PaymentState.failed)
    || r.failed_from =? some to
    || (r.failed_from =? some PaymentState.pending && to =? PaymentState.detected)

-- The record that a transition to `to` leaves.
abbrev pub moved : PaymentRecord → PaymentState → PaymentRecord
moved r to = record r {
  failed_from = if to =? PaymentState.failed then some r.state else r.failed_from;
  state = to;
  attempts = 0;
  next_attempt_at = 0;
  last_error = if to =? PaymentState.failed then r.last_error else none;
}

-- `PaymentRecord::transition`
unfoldable pub transition : PaymentRecord → PaymentState → Result PaymentRecord
unfolding can_transition PaymentState-discrete Option-PaymentState-discrete
transition r to =
    if not (can_transition r.state to) || not (resume_ok r to)
    then err (Error.invalid_transition r.state to)
    else ok (moved r to)

-- The seconds until the next attempt: 5 * 2^attempts, at most 600.
abbrev pub backoff : ℕ → ℕ
backoff attempts = min (5 * 2 ^ min attempts 7) 600

-- Whether a record with so many failed attempts gives up.
abbrev pub gives_up : PaymentState → ℕ → ℕ → Bool
gives_up s attempts max_attempts = leb max_attempts attempts && can_transition s PaymentState.failed

-- `PaymentRecord::record_failure`
unfoldable pub record_failure : PaymentRecord → String → ℕ → ℕ → PaymentRecord
unfolding can_transition
record_failure r e max_attempts now =
    let attempts = wrap_u32 (r.attempts + 1) in
    let final = gives_up r.state attempts max_attempts in
    record r {
      attempts = attempts;
      last_error = some (take_chars 500 e);
      next_attempt_at = wrap_u64 (now + backoff attempts);
      failed_from = if final then some r.state else r.failed_from;
      state = if final then PaymentState.failed else r.state;
    }
