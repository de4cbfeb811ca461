-- ===== src/Engine/Careful.antt =====
-- The steps of src/engine.rs, one by one: none uses the store but by its operations, and each sends at
-- most one transaction, journaled before.
use buyback.Base.{ℕ, List, [], ◌∷◌, Option, none, some, saturating_add}
use buyback.Chain.{AccountId, Action, ChainCall, StakePosition}
use buyback.State.{PaymentRecord, BuybackBudget, BuybackReceipt}
use buyback.Keys.{Ss58}
use buyback.Engine.Env.{Engine}
use buyback.Engine.Trace.{
  IsQuiet, IsCareful, quiet_rules, bind-IsQuiet, bind-IsCareful, then-IsCareful, IsQuiet-IsCareful,
  if-IsCareful,
}
use buyback.Engine.Safety.{RunsOthers, effect_rules, send_journaled-IsCareful}
use buyback.Engine.Buyback.{
  send, save, spendable, step_destroy, step_buy, buy_or_destroy, step_auto_buyback,
}
use buyback.Engine.Steps.{
  Positions, announce_if_final, wallet, sweep_floor, tao_balance, settle_pending, step_pending,
}
use buyback.Engine.Sweep.{sum_fees, fund, step_detected, sweep, step_funded}

module _ ⦃codec : Ss58⦄ (e : Engine) (others : RunsOthers e) where
  pub send-IsCareful :
      (r : PaymentRecord) (action : Action) (call : ChainCall) (signer : AccountId)
      → IsCareful (send e r action call signer)
  unfolding send
  send-IsCareful r action call signer =
      then-IsCareful (send_journaled-IsCareful e others r action call signer)
        (λ _. search quiet_rules)

  pub save-IsQuiet : (r : PaymentRecord) → IsQuiet (save e r)
  unfolding save
  save-IsQuiet r = search effect_rules

  pub save-IsCareful : (r : PaymentRecord) → IsCareful (save e r)
  save-IsCareful r = IsQuiet-IsCareful (save-IsQuiet r)

  pub spendable-IsQuiet : IsQuiet (spendable e)
  unfolding spendable
  spendable-IsQuiet = search effect_rules depth 8

  pub step_destroy-IsCareful :
      (r : PaymentRecord) (budget : BuybackBudget) (b : BuybackReceipt)
      → IsCareful (step_destroy e r budget b)
  unfolding step_destroy
  step_destroy-IsCareful r budget b =
      search (bind-IsCareful, if-IsCareful, effect_rules, save-IsCareful, send-IsCareful) depth 9

  pub step_buy-IsCareful :
      (r : PaymentRecord) (budget : BuybackBudget) → IsCareful (step_buy e r budget)
  unfolding step_buy
  step_buy-IsCareful r budget =
      search (bind-IsCareful, effect_rules, spendable-IsQuiet, send-IsCareful) depth 9

  pub announce_if_final-IsQuiet : (r : PaymentRecord) → IsQuiet (announce_if_final e r)
  unfolding announce_if_final
  announce_if_final-IsQuiet r = search effect_rules

  pub wallet-IsQuiet : (r : PaymentRecord) → IsQuiet (wallet e r)
  unfolding wallet
  wallet-IsQuiet r = search effect_rules

  pub sweep_floor-IsQuiet : (netuid : ℕ) → IsQuiet (sweep_floor e netuid)
  unfolding sweep_floor
  sweep_floor-IsQuiet netuid = search effect_rules

  pub settle_pending-IsQuiet :
      (r : PaymentRecord) (alpha tao t : ℕ) → IsQuiet (settle_pending e r alpha tao t)
  unfolding settle_pending
  settle_pending-IsQuiet r alpha tao t =
      search (effect_rules, save-IsQuiet, announce_if_final-IsQuiet) depth 9

  pub tao_balance-IsQuiet : (m : Option ℕ) (who : AccountId) → IsQuiet (tao_balance e m who)
  tao_balance-IsQuiet none who = search effect_rules
  tao_balance-IsQuiet (some m) who = search effect_rules

  pub step_pending-IsQuiet :
      (r : PaymentRecord) (positions : Positions) → IsQuiet (step_pending e r positions)
  unfolding step_pending
  step_pending-IsQuiet r positions =
      search (effect_rules, tao_balance-IsQuiet, settle_pending-IsQuiet) depth 9

  pub sum_fees-IsQuiet :
      (netuid floor : ℕ) (who : AccountId) (fees : ℕ) (ps : List StakePosition)
      → IsQuiet (sum_fees e netuid floor who fees ps)
  unfolding sum_fees
  sum_fees-IsQuiet netuid floor who fees [] = search quiet_rules
  sum_fees-IsQuiet netuid floor who fees (p ∷ ps) =
      bind-IsQuiet (search effect_rules)
        (λ fee. sum_fees-IsQuiet netuid floor who (saturating_add fees fee) ps)

  pub fund-IsCareful :
      (r : PaymentRecord) (who : AccountId) (need : ℕ) → IsCareful (fund e r who need)
  unfolding fund
  fund-IsCareful r who need =
      search (bind-IsCareful, if-IsCareful, effect_rules, save-IsCareful, send-IsCareful) depth 8

  pub step_detected-IsCareful : (r : PaymentRecord) → IsCareful (step_detected e r)
  unfolding step_detected
  step_detected-IsCareful r =
      search
        (
          bind-IsCareful, effect_rules, wallet-IsQuiet, sweep_floor-IsQuiet, sum_fees-IsQuiet,
          fund-IsCareful,
        )
        depth 12

  pub sweep-IsCareful :
      (r : PaymentRecord) (who : AccountId) (p : Option StakePosition) → IsCareful (sweep e r who p)
  unfolding sweep
  sweep-IsCareful r who none = search (bind-IsCareful, effect_rules, save-IsCareful)
  sweep-IsCareful r who (some p) = search send-IsCareful

  pub step_funded-IsCareful : (r : PaymentRecord) → IsCareful (step_funded e r)
  unfolding step_funded
  step_funded-IsCareful r =
      search (bind-IsCareful, effect_rules, wallet-IsQuiet, sweep_floor-IsQuiet, sweep-IsCareful)
        depth 9

  pub buy_or_destroy-IsCareful :
      (r : PaymentRecord) (budget : BuybackBudget) (b : Option BuybackReceipt)
      → IsCareful (buy_or_destroy e r budget b)
  unfolding buy_or_destroy
  buy_or_destroy-IsCareful r budget (some b) = step_destroy-IsCareful r budget b
  buy_or_destroy-IsCareful r budget none = step_buy-IsCareful r budget

  pub step_auto_buyback-IsCareful : (r : PaymentRecord) → IsCareful (step_auto_buyback e r)
  unfolding step_auto_buyback
  step_auto_buyback-IsCareful r =
      search (bind-IsCareful, effect_rules, buy_or_destroy-IsCareful) depth 8
