-- ===== src/Engine/Checks.antt =====
-- The checks of the automatic buyback of src/engine.rs: amounts, calls and receipts.
use buyback.Base.{
  ℕ, ◌==◌, String, Bool, true, Option, none, some, ◌&&◌, ◌||◌, not, is_some, ltb, ◌=?◌, string_eq,
  if◌then◌else◌,
}
use buyback.Config.{Destroy, destroy_eq}
use buyback.Chain.{AccountId, ChainCall, TxRef}
use buyback.State.{PaymentRecord, BuybackReceipt, BuybackBudget}
use buyback.State.Budget.{validate, min_stake_rao}
use buyback.Error.{Error, Result, ok, err, ◌>>=◌, ◌>>◌, fail_if, ok_or}
use buyback.Keys.{Ss58}

-- `destroy_call`
unfoldable pub destroy_call : Destroy → AccountId → (netuid alpha : ℕ) → ChainCall
destroy_call Destroy.recycle hotkey netuid alpha = ChainCall.recycle_alpha hotkey netuid alpha
destroy_call _ hotkey netuid alpha = ChainCall.burn_alpha hotkey netuid alpha

-- `strict_buyback_amount`
unfoldable pub strict_buyback_amount : (requested spendable : ℕ) → Result ℕ
strict_buyback_amount requested spendable =
    if ltb requested min_stake_rao
    then err (Error.insufficient "buyback budget below minimum; blocked, not skipped")
    else if ltb spendable requested
    then err (Error.insufficient "full buyback budget unavailable; no partial spend")
    else ok requested

-- The destroying call that a budget asks for.
abbrev pub destroy_name : Destroy → String
destroy_name Destroy.burn = "burn_alpha"
destroy_name _ = "recycle_alpha"

abbrev pub is_bad_destroy_tx : Destroy → Option TxRef → Bool
is_bad_destroy_tx d none = true
is_bad_destroy_tx d (some tx) = tx.block_hash =? "" || not (tx.action =? destroy_name d)

-- Whether a receipt falls short of its budget.
abbrev pub is_incomplete : BuybackBudget → BuybackReceipt → Bool
is_incomplete budget receipt =
    not (receipt.tao_spent == budget.amount_rao)
    || not (receipt.netuid == budget.netuid)
    || receipt.alpha_bought == 0
    || receipt.stake_tx.block_hash =? ""
    || (not (budget.destroy =? Destroy.keep)
        && (not (receipt.alpha_destroyed == receipt.alpha_bought)
            || is_bad_destroy_tx budget.destroy receipt.destroy_tx))

-- `validate_completed_buyback`
unfoldable pub validate_completed_buyback : ⦃codec : Ss58⦄ → PaymentRecord → Result (Unit {0})
validate_completed_buyback r = do
  budget ← ok_or r.buyback_budget (Error.store "missing job budget")
  validate budget
  b ← ok_or r.buyback (Error.store "missing purchase receipt")
  fail_if (is_incomplete budget b) (Error.store "incomplete job buyback receipt")

-- What `step_auto_buyback` asks of the receipt of a purchase before it goes on.
unfoldable pub check_purchase : BuybackBudget → BuybackReceipt → Result (Unit {0})
check_purchase budget b = do
  fail_if (not (b.tao_spent == budget.amount_rao) || not (b.netuid == budget.netuid))
      (Error.store "purchase receipt disagrees with job budget")
  fail_if (b.alpha_bought == 0) (Error.insufficient "buyback produced no alpha; completion blocked")
  fail_if (is_some b.destroy_tx && not (b.alpha_destroyed == b.alpha_bought))
      (Error.store "incomplete burn receipt; completion blocked")
