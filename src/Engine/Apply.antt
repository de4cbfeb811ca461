-- ===== src/Engine/Apply.antt =====
-- `Engine::apply` of src/engine.rs: what a finalized transaction does to the record whose journal it
-- resolves. A failed `apply` leaves the caller's record, since the callers pass a clone.
use buyback.Base.{ℕ, ◌+◌, ◌==◌, true, [], ◌∷◌, ◌++◌, none, some, ◌||◌, not, wrap_u64, string_eq}
use buyback.Chain.{Action, TxRef, EventSummary, pallet, has}
use buyback.State.{PaymentState, PaymentRecord}
use buyback.State.Moves.{transition}
use buyback.Error.{Error, Result, ok, ◌>>=◌, ◌>>◌, fail_if, ok_or}

-- `Action::BuyStake` of `apply`: the purchase must have spent the full amount.
unfoldable pub apply_buy :
    PaymentRecord → TxRef → EventSummary → (netuid limit_price : ℕ) → Result PaymentRecord
apply_buy r tx s netuid limit_price = do
  (tao, alpha) ← ok_or s.stake_added (Error.event_missing "StakeAdded")
  fail_if (not (tao == tx.amount) || alpha == 0)
      (Error.store "purchase does not match full requested budget")
  ok (record r {
    buyback = some (record {
      netuid = netuid;
      tao_spent = tao;
      alpha_bought = alpha;
      limit_price = limit_price;
      stake_tx = tx;
      destroy_tx = none;
      alpha_destroyed = 0;
    });
  })

-- `Action::Destroy` of `apply`: exactly what was bought must be gone.
unfoldable pub apply_destroy : PaymentRecord → TxRef → EventSummary → Result PaymentRecord
apply_destroy r tx s = do
  destroyed ← ok_or s.alpha_destroyed (Error.event_missing "AlphaBurned/AlphaRecycled")
  b ← ok_or r.buyback (Error.store "burn without purchase receipt")
  fail_if (not (destroyed == b.alpha_bought) || destroyed == 0)
      (Error.store "burn amount does not match purchased alpha")
  ok (record r {
    buyback = some (record b { destroy_tx = some tx; alpha_destroyed = destroyed });
    buyback_done = true;
  })

-- The `match` of `apply` on the action of the journal.
unfoldable pub apply_action : Action → PaymentRecord → TxRef → EventSummary → Result PaymentRecord
unfolding apply_buy apply_destroy
apply_action Action.fund r tx s =
    transition (record r { funded_tao = wrap_u64 (r.funded_tao + tx.amount) }) PaymentState.funded
apply_action (Action.sweep hotkey) r tx s = do
  fail_if (not (has s pallet "StakeTransferred")) (Error.event_missing "StakeTransferred")
  ok (record r {
    swept_alpha = wrap_u64 (r.swept_alpha + tx.amount);
    swept_positions = r.swept_positions ++ (hotkey, tx.amount) ∷ [];
  })
apply_action (Action.consolidate hotkey) r tx s =
    ok (record r { consolidated = wrap_u64 (r.consolidated + 1) })
apply_action Action.return_dust r tx s = ok (record r { dust_returned = true })
apply_action (Action.buy_stake netuid limit_price) r tx s = apply_buy r tx s netuid limit_price
apply_action (Action.destroy netuid recycle) r tx s = apply_destroy r tx s

-- `Engine::apply`
unfoldable pub apply : PaymentRecord → TxRef → EventSummary → Result PaymentRecord
unfolding apply_action
apply r tx s = do
  p ← ok_or r.pending (Error.store "apply without pending")
  r' ← apply_action p.action (record r { pending = none }) tx s
  ok (record r' { attempts = 0; next_attempt_at = 0; last_error = none; txs = r'.txs ++ tx ∷ [] })
