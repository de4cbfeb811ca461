-- ===== src/Engine/Tick.antt =====
-- `tick` of src/engine.rs: one pass over all open payments.
use buyback.Base.{
  ℕ, ◌+◌, Bool, true, false, List, [], ◌∷◌, Option, none, some, ◌&&◌, ◌||◌, is_none, ltb, ◌=?◌,
  if◌then◌else◌,
}
use buyback.Chain.{AccountId}
use buyback.State.{
  PaymentRecord, payment_state_eq, pending, detected, funded, swept, settled, failed,
}
use buyback.Error.{Result, ok}
use buyback.Keys.{Ss58}
use buyback.Engine.Env.{Engine, Async, ◌>>=◌, pure, attempt, ask, now, store_list}
use buyback.Engine.Steps.{Positions}
use buyback.Engine.Driver.{step}

-- Whether a pass leaves a record alone: it has no journal, and is closed or waits for its next attempt.
abbrev pub is_idle : ℕ → PaymentRecord → Bool
is_idle t r =
    is_none r.pending
    && (r.state =? failed || (r.state =? settled && r.notified) || ltb t r.next_attempt_at)

abbrev pub advanced : Result Bool → ℕ
advanced (ok true) = 1
advanced _ = 0

module _ ⦃codec : Ss58⦄ where
  abbrev account_of : Option AccountId → List AccountId → List AccountId
  account_of none rest = rest
  account_of (some a) rest = a ∷ rest

  -- The accounts of the pending payments; an address that does not parse is left out.
  unfoldable pub pending_accounts : List PaymentRecord → List AccountId
  pending_accounts [] = []
  pending_accounts (r ∷ rs) =
      let rest = pending_accounts rs in
      if r.state =? pending && is_none r.pending
      then account_of (codec.decode r.address) rest
      else rest

module _ ⦃codec : Ss58⦄ (e : Engine) where
  -- One read for all of them, if there are any.
  unfoldable pub read_positions : List AccountId → Async Positions
  read_positions [] = pure []
  read_positions (a ∷ more) = ask e (λ n. e.rpc.stake_positions_many n (a ∷ more))

  -- The loop of `tick`: the error of one payment does not stop the others.
  unfoldable pub tick_all : (t : ℕ) → Positions → (count : ℕ) → List PaymentRecord → Async ℕ
  tick_all t positions count [] = pure count
  tick_all t positions count (r ∷ rs) = do
    answer ← if is_idle t r then pure (ok false) else attempt (step e r positions)
    tick_all t positions (advanced answer + count) rs

  -- `tick`
  unfoldable pub tick : Async ℕ
  unfolding tick_all read_positions pending_accounts
  tick = do
    recs ← store_list e (pending ∷ detected ∷ funded ∷ swept ∷ settled ∷ failed ∷ [])
    t ← now e
    positions ← read_positions (pending_accounts recs)
    tick_all t positions 0 recs
