-- ===== src/State/Tests.antt =====
-- Runs of the functions of src/state.rs, and the theorems on them at concrete records.
use buyback.Base.{ℕ, ◌≤◌, ◌≡◌, refl, inl, some, arith, true}
use buyback.State.{PaymentRecord, is_active, swept, failed}
use buyback.State.Moves.{record_failure}
use buyback.State.Progress.{
  Evolves, start, fails, progress, IsPastSweep, Evolves-progress, Evolves-IsPastSweep, CanSettle,
  Evolves-CanSettle,
}
use buyback.State.Failures.{failures, failures_exhaust}
use buyback.Fixtures.{payment}

abbrev swept_payment : PaymentRecord
swept_payment = record payment { state = swept }

abbrev tired_payment : PaymentRecord
tired_payment = record_failure swept_payment "boom" 1 50

swept_fails : (record_failure swept_payment "boom" 1 50).state ≡ failed
unfolding record_failure
swept_fails = refl

second_backoff : (failures 2 swept_payment "boom" 3 1000).next_attempt_at ≡ 1020
unfolding failures record_failure
second_backoff = refl

swept_run : Evolves swept_payment tired_payment
swept_run = fails start "boom" 1 50

pending_run : Evolves payment (record_failure payment "boom" 1 50)
pending_run = fails start "boom" 1 50

Evolves-progress_example : progress swept_payment ≤ progress tired_payment
Evolves-progress_example = Evolves-progress swept_run

Evolves-IsPastSweep_example : IsPastSweep tired_payment
Evolves-IsPastSweep_example = Evolves-IsPastSweep swept_run (inl refl)

Evolves-CanSettle_example : CanSettle (record_failure payment "boom" 1 50)
Evolves-CanSettle_example = Evolves-CanSettle (inl refl) pending_run

swept_is_active : is_active swept ≡ true
unfolding is_active
swept_is_active = refl

failures_exhaust_example :
    ((k : ℕ) → k ≤ 2 → (failures k swept_payment "boom" 3 9).state ≡ swept)
    × ((failures 3 swept_payment "boom" 3 9).state ≡ failed)
    × ((failures 3 swept_payment "boom" 3 9).failed_from ≡ some swept)
failures_exhaust_example =
    failures_exhaust swept_payment "boom" 2 9 swept_is_active refl (omega arith)
