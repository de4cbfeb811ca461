-- ===== src/Engine/Accounts.antt =====
-- What `Engine::apply` (src/engine.rs) keeps true of a record: the alpha swept is the sum of the
-- positions swept.
use buyback.Base.{
  ℕ, ◌+◌, String, List, [], ◌∷◌, ◌++◌, none, some, ◌≡◌, inl, inr, arith, Option-cases, wrap_u64,
}
use buyback.Chain.{Action, PendingTx, TxRef, EventSummary}
use buyback.State.{PaymentRecord}
use buyback.Error.{ok, Result-cases}
use buyback.Engine.Apply.{apply, apply_action, apply_buy, apply_destroy}
use buyback.State.Moves.{transition}

-- The alpha of the swept positions.
abbrev pub swept_total : List (String × ℕ) → ℕ
swept_total [] = 0
swept_total ((_, alpha) ∷ ps) = alpha + swept_total ps

swept_total-append :
    (ps : List (String × ℕ)) (h : String) (alpha : ℕ)
    → swept_total (ps ++ (h, alpha) ∷ []) ≡ swept_total ps + alpha
swept_total-append [] h alpha = omega arith
swept_total-append ((_, a) ∷ ps) h alpha = omega (arith, swept_total-append ps h alpha)

-- The counter of the alpha swept alpha agrees with the positions noted.
abbrev pub IsBalanced : PaymentRecord → Type 0
IsBalanced r = r.swept_alpha ≡ wrap_u64 (swept_total r.swept_positions)

apply_action-IsBalanced :
    (a : Action) (r : PaymentRecord) (tx : TxRef) (s : EventSummary) (r' : PaymentRecord)
    → apply_action a r tx s ≡ ok r'
    → IsBalanced r
    → IsBalanced r'
unfolding apply_action transition
apply_action-IsBalanced Action.fund r tx s r' h b = ground arith
apply_action-IsBalanced (Action.sweep hotkey) r tx s r' h b =
    ground (arith, swept_total-append r.swept_positions hotkey tx.amount)
apply_action-IsBalanced (Action.consolidate hotkey) r tx s r' h b = ground arith
apply_action-IsBalanced Action.return_dust r tx s r' h b = ground arith
apply_action-IsBalanced (Action.buy_stake netuid limit_price) r tx s r' h b = ground arith
apply_action-IsBalanced (Action.destroy netuid recycle) r tx s r' h b = ground arith

-- What a successful `apply` has done.
pub record Applies (r : PaymentRecord) (tx : TxRef) (s : EventSummary) (r' : PaymentRecord)
    : Type 0 where
  pub journal : PendingTx
  pub mid : PaymentRecord
  pub found : r.pending ≡ some journal
  pub acted : apply_action journal.action (record r { pending = none }) tx s ≡ ok mid
  pub result : r' ≡ record mid {
    attempts = 0;
    next_attempt_at = 0;
    last_error = none;
    txs = mid.txs ++ tx ∷ [];
  }

pub apply-Applies :
    (r : PaymentRecord) (tx : TxRef) (s : EventSummary) (r' : PaymentRecord)
    → apply r tx s ≡ ok r'
    → Applies r tx s r'
unfolding apply
apply-Applies r tx s r' h = elim (Option-cases r.pending) [
  | inl e ↦ absurd (ground (arith, e))
  | inr (p, e) ↦ elim (Result-cases (apply_action p.action (record r { pending = none }) tx s)) [
    | inl (x, e') ↦ absurd (ground (arith, e, e'))
    | inr (mid, e') ↦ record {
      journal = p;
      mid = mid;
      found = e;
      acted = e';
      result = ground (arith, e, e');
    }
  ]
]

-- A receipt applied to a record keeps the counter of swept alpha equal, in `u64`, to the sum over the
-- positions noted.
pub apply-IsBalanced :
    (r : PaymentRecord) (tx : TxRef) (s : EventSummary) (r' : PaymentRecord)
    → apply r tx s ≡ ok r'
    → IsBalanced r
    → IsBalanced r'
apply-IsBalanced r tx s r' h b =
    let a = apply-Applies r tx s r' h in
    let m =
      apply_action-IsBalanced a.journal.action (record r { pending = none }) tx s a.mid a.acted b in
    ground (arith, a.result, m)

-- The parts of a record that a receipt never touches, whatever its action.
abbrev pub Frozen : PaymentRecord → PaymentRecord → Type 0
Frozen r r' =
    (r'.id ≡ r.id)
    × (r'.version ≡ r.version)
    × (r'.identity ≡ r.identity)
    × (r'.auto_required ≡ r.auto_required)
    × (r'.buyback_budget ≡ r.buyback_budget)

apply_action-Frozen :
    (a : Action) (r : PaymentRecord) (tx : TxRef) (s : EventSummary) (r' : PaymentRecord)
    → apply_action a r tx s ≡ ok r'
    → Frozen r r' × (r'.pending ≡ r.pending) × (r'.txs ≡ r.txs)
unfolding apply_action transition apply_buy apply_destroy
apply_action-Frozen Action.fund r tx s r' h = ground arith
apply_action-Frozen (Action.sweep hotkey) r tx s r' h = ground arith
apply_action-Frozen (Action.consolidate hotkey) r tx s r' h = ground arith
apply_action-Frozen Action.return_dust r tx s r' h = ground arith
apply_action-Frozen (Action.buy_stake netuid limit_price) r tx s r' h = ground arith
apply_action-Frozen (Action.destroy netuid recycle) r tx s r' h = ground arith

-- A receipt that is applied clears the journal, is noted last among the transactions, and resets
-- the failed attempts; the job's id, version, identity and policy stay.
pub apply-Frozen :
    (r : PaymentRecord) (tx : TxRef) (s : EventSummary) (r' : PaymentRecord)
    → apply r tx s ≡ ok r'
    → Frozen r r' × (r'.pending ≡ none) × (r'.txs ≡ r.txs ++ tx ∷ []) × (r'.attempts ≡ 0)
apply-Frozen r tx s r' h =
    let a = apply-Applies r tx s r' h in
    let m = apply_action-Frozen a.journal.action (record r { pending = none }) tx s a.mid a.acted in
    ground (arith, a.result, m)
