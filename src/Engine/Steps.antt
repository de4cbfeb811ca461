-- ===== src/Engine/Steps.antt =====
-- The steps of a payment in src/engine.rs, one for each active state.
use buyback.Base.{
  ℕ, ◌+◌, ◌*◌, ◌/◌, ◌==◌, max, String, Bool, true, false, List, [], ◌∷◌, Option, none, some, ◌&&◌,
  ◌||◌, not, ltb, leb, ◌=?◌, string_eq, nat_eq, wrap_u64, if◌then◌else◌,
}
use buyback.Chain.{AccountId, StakePosition}
use buyback.State.{PaymentState, PaymentRecord, status, payment_state_eq}
use buyback.State.Budget.{min_stake_rao}
use buyback.State.Moves.{transition}
use buyback.Error.{Error, Result, fail_if}
use buyback.Keys.{Ss58, ss58, parse_ss58, wallet_aad}
use buyback.Units.{rao_per_tao}
use buyback.Engine.Env.{Engine, Async, ◌>>=◌, ◌>>◌, lift, pure, ask, now, announce, store_update}
use buyback.Engine.Buyback.{save}

-- `StakePosition`s of one subnet, and their alpha in all (`sum` of `u64`).
abbrev pub on_netuid : ℕ → List StakePosition → List StakePosition
on_netuid netuid [] = []
on_netuid netuid (p ∷ ps) =
    if p.netuid == netuid then p ∷ on_netuid netuid ps else on_netuid netuid ps

abbrev pub alpha_sum : List StakePosition → ℕ
alpha_sum [] = 0
alpha_sum (p ∷ ps) = wrap_u64 (p.alpha + alpha_sum ps)

-- The map that `stake_positions_many` returns.
abbrev pub Positions : Type 0
Positions = List (AccountId × List StakePosition)

abbrev pub positions_of : AccountId → Positions → List StakePosition
positions_of who [] = []
positions_of who ((a, ps) ∷ rest) = if a == who then ps else positions_of who rest

-- Whether a position was swept before: its hotkey is among those noted.
unfoldable pub is_swept : String → List (String × ℕ) → Bool
is_swept hotkey [] = false
is_swept hotkey ((h, _) ∷ rest) = h =? hotkey || is_swept hotkey rest

module _ ⦃codec : Ss58⦄ where
  -- The first position that is worth a sweep and has not had one.
  unfoldable pub next_position :
      (floor : ℕ) → List (String × ℕ) → List StakePosition → Option StakePosition
  unfolding is_swept
  next_position floor done [] = none
  next_position floor done (p ∷ ps) =
      if leb floor p.alpha && not (is_swept (ss58 p.hotkey) done)
      then some p
      else next_position floor done ps

module _ ⦃codec : Ss58⦄ (e : Engine) where
  -- `announce_if_final`
  unfoldable pub announce_if_final : PaymentRecord → Async (Unit {0})
  announce_if_final r =
      if r.state =? PaymentState.failed || r.state =? PaymentState.expired
      then announce (status r)
      else pure tt

  abbrev open_wallet :
      Option String → Option (String → Result AccountId) → PaymentRecord → Result AccountId
  open_wallet (some path) (some seed) r = seed path
  open_wallet _ _ r = e.rpc.unseal r.sealed_secret (wallet_aad r.id r.address)

  -- `wallet`: the account that the record's secret opens, if it is the record's address.
  unfoldable pub wallet : PaymentRecord → Async AccountId
  wallet r = do
    w ← lift (open_wallet r.derivation_path e.rpc.seed r)
    lift (fail_if (not (ss58 w =? r.address)) (Error.crypto "sealed wallet does not match address"))
    pure w

  -- `sweep_floor`
  unfoldable pub sweep_floor : ℕ → Async ℕ
  sweep_floor netuid = do
    price ← ask e (λ n. e.rpc.alpha_price n netuid)
    pure (max e.cfg.sweep_dust (wrap_u64 (min_stake_rao * 3 / 2 * rao_per_tao / max price 1)))

  -- The balance that a TAO payment is judged by.
  abbrev pub tao_balance : Option ℕ → AccountId → Async ℕ
  tao_balance none who = pure 0
  tao_balance (some _) who = ask e (λ n. e.rpc.free_balance n who)

  abbrev pub is_paid : Option ℕ → ℕ → Bool
  is_paid none tao = false
  is_paid (some m) tao = leb m tao

  -- `step_pending`, once the balances are known.
  unfoldable pub settle_pending : PaymentRecord → (alpha tao t : ℕ) → Async Bool
  settle_pending r alpha tao t =
      if leb r.min_alpha alpha || is_paid r.min_tao tao
      then (do
        r' ← lift (
            transition
              (record r {
                detected_alpha = alpha;
                detected_tao = if is_paid r.min_tao tao then tao else 0;
              })
              PaymentState.detected)
        save e r')
      else (if ltb r.expires_at t
          then (do
            r' ← lift (transition (record r { detected_alpha = alpha }) PaymentState.expired)
            stored ← store_update e r'
            announce_if_final stored
            pure true)
          else pure false)

  -- `step_pending`
  unfoldable pub step_pending : PaymentRecord → Positions → Async Bool
  unfolding settle_pending
  step_pending r positions = do
    who ← lift (parse_ss58 r.address)
    tao ← tao_balance r.min_tao who
    t ← now e
    settle_pending r (alpha_sum (on_netuid r.netuid (positions_of who positions))) tao t
