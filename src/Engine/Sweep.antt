-- ===== src/Engine/Sweep.antt =====
-- The steps of src/engine.rs that move money: `step_detected`, `step_funded` and `step_swept`.
use buyback.Base.{
  ℕ, zero, suc, ◌+◌, ◌==◌, String, Bool, true, List, [], ◌∷◌, Option, none, some, ◌&&◌, ◌||◌, not,
  is_none, ltb, leb, length, max, wrap_u64, saturating_add, if◌then◌else◌,
}
use buyback.Chain.{AccountId, Action, ChainCall, StakePosition}
use buyback.State.{PaymentState, PaymentRecord}
use buyback.State.Moves.{transition}
use buyback.Error.{Error, ok, fail_if, ok_or}
use buyback.Keys.{Ss58, ss58, parse_ss58}
use buyback.Units.{funding_needed}
use buyback.Engine.Env.{Engine, Async, ◌>>=◌, ◌>>◌, lift, pure, ask, store_update}
use buyback.Engine.Checks.{validate_completed_buyback}
use buyback.Engine.Buyback.{send, save, step_auto_buyback}
use buyback.Engine.Steps.{wallet, sweep_floor, next_position}

-- `r.swept_positions[i].0`, if there is such a position.
abbrev pub get_position : List (String × ℕ) → ℕ → Option String
get_position [] i = none
get_position ((h, _) ∷ ps) zero = some h
get_position (_ ∷ ps) (suc i) = get_position ps i

module _ ⦃codec : Ss58⦄ (e : Engine) where
  -- The transfer of a position to the treasury.
  abbrev pub sweep_call : ℕ → StakePosition → ChainCall
  sweep_call netuid p = ChainCall.transfer_stake e.treasury p.hotkey netuid p.alpha

  -- The loop of `step_detected` that sums the estimated fees.
  unfoldable pub sum_fees :
      (netuid floor : ℕ) (who : AccountId) (fees : ℕ) → List StakePosition → Async ℕ
  sum_fees netuid floor who fees [] = pure fees
  sum_fees netuid floor who fees (p ∷ ps) = do
    fee ←
        if leb floor p.alpha
        then ask e (λ n. e.rpc.estimate_fee n (sweep_call netuid p) who)
        else pure 0
    sum_fees netuid floor who (saturating_add fees fee) ps

  -- `step_detected`, once it is known how much the wallet needs.
  unfoldable pub fund : PaymentRecord → AccountId → (need : ℕ) → Async Bool
  fund r who need =
      if need == 0
      then (do r' ← lift (transition r PaymentState.funded); save e r')
      else send e r Action.fund (ChainCall.transfer_tao who need) e.treasury

  abbrev pub need_of : List StakePosition → ℕ → ℕ
  need_of [] n = 0
  need_of (_ ∷ _) n = n

  -- `step_detected`
  unfoldable pub step_detected : PaymentRecord → Async Bool
  unfolding fund
  step_detected r = do
    who ← wallet e r
    (alpha, pos) ← ask e (λ n. e.rpc.alpha_on n who r.netuid)
    (free, _) ← ask e (λ n. e.rpc.account n who)
    floor ← sweep_floor e r.netuid
    fees ← sum_fees r.netuid floor who 0 pos
    ed ← ask e e.rpc.existential_deposit
    fund (record r { detected_alpha = max r.detected_alpha alpha }) who
        (need_of pos (funding_needed fees e.cfg.fee_margin_bps ed free))

  -- `step_funded`, for the next position, if there is one.
  unfoldable pub sweep : PaymentRecord → AccountId → Option StakePosition → Async Bool
  sweep r who none = do r' ← lift (transition r PaymentState.swept); save e r'
  sweep r who (some p) = send e r (Action.sweep (ss58 p.hotkey)) (sweep_call r.netuid p) who

  -- `step_funded`
  unfoldable pub step_funded : PaymentRecord → Async Bool
  unfolding sweep
  step_funded r = do
    who ← wallet e r
    (_, pos) ← ask e (λ n. e.rpc.alpha_on n who r.netuid)
    floor ← sweep_floor e r.netuid
    sweep r who (next_position floor r.swept_positions pos)

  -- The rest of `step_swept`, after the consolidation and the dust.
  unfoldable pub settle : (PaymentRecord → Async (Unit {0})) → PaymentRecord → Async Bool
  settle notify r = do
    required ←
        lift (ok_or r.auto_required (Error.config "legacy job policy requires explicit migration"))
    lift (
        fail_if (required && is_none r.buyback_budget) (Error.config "required job budget missing"))
    lift (if required && r.buyback_done then validate_completed_buyback r else ok tt)
    if required && not r.buyback_done then step_auto_buyback e r else (do
      r' ← lift (transition r PaymentState.settled)
      stored ← store_update e r'
      notify stored
      pure true)

  -- The dust of the wallet, or a TAO payment, goes back to the treasury.
  unfoldable pub return_dust : (PaymentRecord → Async (Unit {0})) → PaymentRecord → Async Bool
  unfolding settle
  return_dust notify r =
      if not r.dust_returned && (e.cfg.return_dust || ltb 0 r.detected_tao)
      then (do
        who ← wallet e r
        free ← ask e (λ n. e.rpc.free_balance n who)
        if ltb 0 free
            then send e r Action.return_dust (ChainCall.transfer_all e.treasury) who
            else settle notify (record r { dust_returned = true }))
      else settle notify r

  -- The live stake of a swept position on its old hotkey; none where it is the treasury's.
  abbrev pub live_stake : PaymentRecord → AccountId → Async ℕ
  live_stake r hk =
      if hk == e.cfg.treasury_hotkey
      then pure 0
      else ask e (λ n. e.rpc.alpha_of n hk e.treasury r.netuid)

  -- One round of the loop of `step_swept` that consolidates: `rest` is the rounds to come.
  unfoldable pub consolidate_round :
      (notify : PaymentRecord → Async (Unit {0}))
      → (rest : PaymentRecord → Async Bool) → PaymentRecord
      → Option String
      → Async Bool
  unfolding return_dust
  consolidate_round notify rest r none = return_dust notify r
  consolidate_round notify rest r (some h) = do
    hk ← lift (parse_ss58 h)
    live ← live_stake r hk
    if live == 0
        then store_update e (record r { consolidated = wrap_u64 (r.consolidated + 1) }) >>= rest
        else send e r (Action.consolidate (ss58 hk))
            (ChainCall.move_stake hk e.cfg.treasury_hotkey r.netuid live) e.treasury

  -- That loop, with `fuel` rounds left: a round that goes on has moved `consolidated` one on, towards
  -- the number of positions.
  unfoldable pub consolidate :
      (PaymentRecord → Async (Unit {0})) → (fuel : ℕ) → PaymentRecord → Async Bool
  unfolding consolidate_round
  consolidate notify zero r = return_dust notify r
  consolidate notify (suc fuel) r =
      consolidate_round notify (consolidate notify fuel) r
        (get_position r.swept_positions r.consolidated)

  -- `step_swept`
  unfoldable pub step_swept : (PaymentRecord → Async (Unit {0})) → PaymentRecord → Async Bool
  unfolding consolidate
  step_swept notify r =
      if e.cfg.consolidate
      then consolidate notify (length r.swept_positions) r
      else return_dust notify r
