-- ===== src/Engine/ReceiptTests.antt =====
-- A buyback of src/engine.rs from the purchase to the destruction, and the theorems on receipts.
use buyback.Base.{
  is_whitespace, trim_start, trim_end, utf8_len, ℕ_discrete, ◌≡◌, ◌≢◌, refl, String,
  String-discrete, true, false, [], ◌∷◌, none, some,
}
use buyback.Chain.{Action, PendingTx, PendingOutcome, TxRef, EventSummary}
use buyback.Config.{Destroy-discrete}
use buyback.State.{PaymentRecord, BuybackReceipt, swept, funded}
use buyback.State.Budget.{validate, is_bad_budget}
use buyback.Error.{ok}
use buyback.Engine.Apply.{apply, apply_action, apply_buy, apply_destroy}
use buyback.Engine.Accounts.{IsBalanced, apply-IsBalanced}
use buyback.Engine.Checks.{validate_completed_buyback}
use buyback.Engine.Journal.{resolved}
use buyback.Engine.Receipts.{Settles, resolved-Settles, bought_and_destroyed}
use buyback.Fixtures.{payment, budget, journal_of, receipt_of, codec}

abbrev sweeping : PaymentRecord
sweeping = record payment { state = funded; pending = some journal_of }

abbrev events : EventSummary
events = record {
  names = ("SubtensorModule", "StakeTransferred") ∷ [];
  failed = false;
  stake_added = some (5_000_000, 900);
  alpha_destroyed = some 900;
  stake_moved_tao = none;
  transferred = none;
}

abbrev swept_once : PaymentRecord
swept_once = record payment {
  state = funded;
  swept_alpha = 7;
  swept_positions = ("55", 7) ∷ [];
  txs = receipt_of ∷ [];
}

apply_sweep : apply sweeping receipt_of events ≡ ok swept_once
unfolding apply apply_action String-discrete
apply_sweep = refl

balanced : IsBalanced sweeping
balanced = refl

apply-IsBalanced_example : IsBalanced swept_once
apply-IsBalanced_example =
    apply-IsBalanced sweeping receipt_of events swept_once apply_sweep balanced

resolved-Settles_example :
    ((r' : PaymentRecord)
      → resolved sweeping journal_of 8 50 (PendingOutcome.included "b" events) ≡ some r'
      → Settles sweeping r')
    × (resolved sweeping journal_of 8 50 (PendingOutcome.included "b" events) ≡ none
        → PendingOutcome.included "b" events ≡ PendingOutcome.wait)
resolved-Settles_example =
    resolved-Settles sweeping journal_of 8 50 (PendingOutcome.included "b" events)

abbrev buy_journal : PendingTx
buy_journal = record journal_of { action = Action.buy_stake 100 25; amount = 5_000_000 }

abbrev buy_tx : TxRef
buy_tx = record {
  action = "add_stake_limit";
  tx_hash = "h1";
  block_hash = "b1";
  amount = 5_000_000;
}

abbrev buying : PaymentRecord
buying = record payment { state = swept; pending = some buy_journal }

abbrev bought : PaymentRecord
bought = record payment {
  state = swept;
  buyback = some (record {
    netuid = 100;
    tao_spent = 5_000_000;
    alpha_bought = 900;
    limit_price = 25;
    stake_tx = buy_tx;
    destroy_tx = none;
    alpha_destroyed = 0;
  });
  txs = buy_tx ∷ [];
}

apply_purchase : apply buying buy_tx events ≡ ok bought
unfolding apply apply_action apply_buy ℕ_discrete
apply_purchase = refl

abbrev burn_journal : PendingTx
burn_journal = record journal_of { action = Action.destroy 100 false; amount = 900 }

abbrev burn_tx : TxRef
burn_tx = record { action = "burn_alpha"; tx_hash = "h2"; block_hash = "b2"; amount = 900 }

abbrev burning : PaymentRecord
burning = record bought { pending = some burn_journal }

abbrev full_receipt : BuybackReceipt
full_receipt = record {
  netuid = 100;
  tao_spent = 5_000_000;
  alpha_bought = 900;
  limit_price = 25;
  stake_tx = buy_tx;
  destroy_tx = some burn_tx;
  alpha_destroyed = 900;
}

abbrev burned : PaymentRecord
burned = record bought {
  buyback = some full_receipt;
  buyback_done = true;
  txs = buy_tx ∷ burn_tx ∷ [];
}

apply_burn : apply burning burn_tx events ≡ ok burned
unfolding apply apply_action apply_destroy ℕ_discrete
apply_burn = refl

budget_is_valid : validate budget ≡ ok tt
unfolding validate is_bad_budget is_whitespace trim_start trim_end utf8_len Destroy-discrete
    String-discrete
budget_is_valid = refl

b1_is_text : ◌≢◌ {A = String} "b1" ""
b1_is_text = λ h. cc

b2_is_text : ◌≢◌ {A = String} "b2" ""
b2_is_text = λ h. cc

bought_and_destroyed_example : validate_completed_buyback burned ≡ ok tt
bought_and_destroyed_example =
    bought_and_destroyed budget 25 false buying bought burning burned buy_journal burn_journal
      buy_tx burn_tx events events budget_is_valid refl refl refl (refl, b1_is_text) apply_purchase
      refl refl refl (refl, b2_is_text) apply_burn
