-- ===== src/State/Failures.antt =====
-- Repeated failures of one step (src/state.rs, `record_failure`): the backoff, and when a payment
-- gives up.
use buyback.Base.{
  ℕ, zero, suc, ◌+◌, ◌^◌, ◌≤◌, ◌<◌, ◌≡◌, refl, some, arith, String, true, min, wrap_u32, u64_mod,
  ap, ◌∙◌,
}
use buyback.State.{PaymentRecord, is_active, failed}
use buyback.State.Moves.{record_failure, backoff}

-- `5 << k` for the shifts that occur, between 10 and 600.
backoff_bounds : (a : ℕ) → 1 ≤ a → (10 ≤ backoff a) × (backoff a ≤ 600)
backoff_bounds zero h = absurd (omega arith)
backoff_bounds (suc zero) h = omega arith
backoff_bounds (suc (suc zero)) h = omega arith
backoff_bounds (suc (suc (suc zero))) h = omega arith
backoff_bounds (suc (suc (suc (suc zero)))) h = omega arith
backoff_bounds (suc (suc (suc (suc (suc zero))))) h = omega arith
backoff_bounds (suc (suc (suc (suc (suc (suc zero)))))) h = omega arith
backoff_bounds (suc (suc (suc (suc (suc (suc (suc a))))))) h =
    let e : min (suc (suc (suc (suc (suc (suc (suc a))))))) 7 ≡ 7 = omega arith in
    rw e (omega arith)

-- A failed attempt waits for 10 s at least and 600 s at most, if neither counter is at its end.
pub record_failure-backoff :
    (r : PaymentRecord) (e : String) (max_attempts now : ℕ)
    → r.attempts + 1 < 2 ^ 32
    → now + 600 < u64_mod
    → let r' = record_failure r e max_attempts now in
      (now + 10 ≤ r'.next_attempt_at) × (r'.next_attempt_at ≤ now + 600)
unfolding record_failure
record_failure-backoff r e max_attempts now ha hn =
    let h : wrap_u32 (r.attempts + 1) ≡ r.attempts + 1 = omega arith in
    omega (arith, backoff_bounds (wrap_u32 (r.attempts + 1)) (omega arith))

-- `n` failures in a row, all at the same time.
unfoldable pub failures : ℕ → PaymentRecord → String → ℕ → ℕ → PaymentRecord
failures zero r e max_attempts now = r
failures (suc n) r e max_attempts now =
    record_failure (failures n r e max_attempts now) e max_attempts now

module _ (r : PaymentRecord) (e : String) (max_attempts now : ℕ) where
  abbrev after : ℕ → PaymentRecord
  after n = failures n r e max_attempts now

  failing :
      (n : ℕ)
      → n < max_attempts
      → max_attempts < 2 ^ 32
      → r.attempts ≡ 0
      → ((after n).state ≡ r.state) × ((after n).attempts ≡ n)
  unfolding failures record_failure
  failing zero h m z = (refl, z)
  failing (suc n) h m z = ground (arith, failing n (omega arith) m z)

  last_failure :
      (s : PaymentRecord)
      → is_active s.state ≡ true
      → s.attempts + 1 ≡ max_attempts
      → max_attempts < 2 ^ 32
      → let t = record_failure s e max_attempts now in
        (t.state ≡ failed) × (t.failed_from ≡ some s.state)
  unfolding record_failure is_active
  last_failure s a n m = ground arith

-- With at least one attempt allowed and fewer than 2 ^ 32, an active payment with no failed
-- attempt keeps its state through fewer failures of its step than are allowed, and the failure
-- that reaches the limit fails it, with the state noted.
pub failures_exhaust :
    (r : PaymentRecord) (e : String) (n now : ℕ)
    → is_active r.state ≡ true
    → r.attempts ≡ 0
    → suc n < 2 ^ 32
    → ((k : ℕ) → k ≤ n → (failures k r e (suc n) now).state ≡ r.state)
      × ((failures (suc n) r e (suc n) now).state ≡ failed)
      × ((failures (suc n) r e (suc n) now).failed_from ≡ some r.state)
unfolding failures
failures_exhaust r e n now a z m =
    let (same, count) = failing r e (suc n) now n (omega arith) m z in
    let (f, from) =
      last_failure r e (suc n) now (failures n r e (suc n) now) (rw same a) (omega arith) m in
    (λ k h. (failing r e (suc n) now k (omega arith) m z).0, f, from ∙ ap some same)
