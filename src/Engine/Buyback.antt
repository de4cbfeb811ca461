-- ===== src/Engine/Buyback.antt =====
-- `step_auto_buyback` and `spendable` of src/engine.rs. The treasury lock has no counterpart: it
-- orders the tasks of one process, and here the other tasks run at every await.
use buyback.Base.{ℕ, Bool, true, false, Option, none, some, ◌||◌, is_some, ◌=?◌, if◌then◌else◌}
use buyback.Config.{Destroy, destroy_eq}
use buyback.Chain.{AccountId, Action, ChainCall}
use buyback.State.{PaymentRecord, BuybackReceipt, BuybackBudget}
use buyback.State.Budget.{validate}
use buyback.Error.{Error, ok_or}
use buyback.Keys.{Ss58, parse_ss58}
use buyback.Units
use buyback.Units.{buy_limit_price}
use buyback.Engine.Env.{Engine, Async, ◌>>=◌, ◌>>◌, lift, pure, ask, store_update}
use buyback.Engine.Checks.{destroy_call, strict_buyback_amount, check_purchase}
use buyback.Engine.Journal.{send_journaled}

module _ ⦃codec : Ss58⦄ (e : Engine) where
  -- `Engine::send`: a step that has sent something has changed something.
  unfoldable pub send : PaymentRecord → Action → ChainCall → AccountId → Async Bool
  send r action call signer = do send_journaled e r action call signer; pure true

  -- `*r = self.store.update(r).await?; return Ok(true)`
  unfoldable pub save : PaymentRecord → Async Bool
  save r = do store_update e r; pure true

  -- `Engine::spendable`
  unfoldable pub spendable : Async ℕ
  spendable = do
    free ← ask e (λ n. e.rpc.free_balance n e.treasury)
    ed ← ask e e.rpc.existential_deposit
    pure (Units.spendable free e.cfg.fee_reserve ed)

  -- The second half of an automatic buyback: what was bought is destroyed, or kept.
  unfoldable pub step_destroy : PaymentRecord → BuybackBudget → BuybackReceipt → Async Bool
  unfolding save
  step_destroy r budget b = do
    lift (check_purchase budget b)
    if budget.destroy =? Destroy.keep || is_some b.destroy_tx
        then save (record r { buyback_done = true })
        else (do
          hotkey ← lift (parse_ss58 budget.hotkey)
          send r (Action.destroy budget.netuid (budget.destroy =? Destroy.recycle))
              (destroy_call budget.destroy hotkey budget.netuid b.alpha_bought) e.treasury)

  -- The first half: the full budget is spent at a bounded price, or nothing is.
  unfoldable pub step_buy : PaymentRecord → BuybackBudget → Async Bool
  step_buy r budget = do
    available ← spendable
    tao ← lift (strict_buyback_amount budget.amount_rao available)
    price ← ask e (λ n. e.rpc.alpha_price n budget.netuid)
    let limit_price = buy_limit_price price e.cfg.slippage_bps
    hotkey ← lift (parse_ss58 budget.hotkey)
    send r (Action.buy_stake budget.netuid limit_price)
        (ChainCall.add_stake_limit hotkey budget.netuid tao limit_price false) e.treasury

  unfoldable pub buy_or_destroy : PaymentRecord → BuybackBudget → Option BuybackReceipt → Async Bool
  unfolding step_destroy step_buy
  buy_or_destroy r budget (some b) = step_destroy r budget b
  buy_or_destroy r budget none = step_buy r budget

  -- `step_auto_buyback`
  unfoldable pub step_auto_buyback : PaymentRecord → Async Bool
  unfolding buy_or_destroy
  step_auto_buyback r = do
    budget ←
        lift (ok_or r.buyback_budget (Error.config "job has no explicit buyback budget; blocked"))
    lift (validate budget)
    buy_or_destroy r budget r.buyback
