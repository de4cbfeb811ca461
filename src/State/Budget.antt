-- ===== src/State/Budget.antt =====
-- `BuybackBudget::validate` of src/state.rs, and the chain's minimum stake of src/engine.rs.
use buyback.Base.{ℕ, Bool, ◌&&◌, ◌||◌, not, ◌==◌, ltb, ◌=?◌, string_eq, trim, is_empty, utf8_len}
use buyback.Config.{Destroy, destroy_eq}
use buyback.State.{BuybackBudget}
use buyback.Error.{Error, Result, ◌>>=◌, fail_if}
use buyback.Keys.{Ss58, parse_ss58}

-- `MIN_STAKE_RAO`: smaller stakes fail on chain.
abbrev pub min_stake_rao : ℕ
min_stake_rao = 2_000_000

-- The fields of a budget that no job may have.
unfoldable pub is_bad_budget : BuybackBudget → Bool
is_bad_budget b =
    (b.netuid == 0 && not (b.destroy =? Destroy.keep))
    || ltb b.amount_rao min_stake_rao
    || not (b.currency =? "TAO")
    || is_empty (trim b.source)
    || ltb 128 (utf8_len b.source)

-- `BuybackBudget::validate`
unfoldable pub validate : ⦃codec : Ss58⦄ → BuybackBudget → Result (Unit {0})
unfolding is_bad_budget
validate b = do
  _ ← parse_ss58 b.hotkey
  fail_if (is_bad_budget b) (Error.config "explicit TAO buyback budget/source required")
