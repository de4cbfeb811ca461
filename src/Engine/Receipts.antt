-- ===== src/Engine/Receipts.antt =====
-- What `reconcile_journaled` and `apply` (src/engine.rs) make of a record: the outcomes of a journal,
-- and a buyback from the purchase to the destruction.
use buyback.Base.{
  ℕ, ◌∙◌, ◌≤◌, ◌≡◌, ◌≢◌, refl, arith, String, Bool, true, none, some, inl, inr, Option-cases,
  string_eq,
}
use buyback.Config.{destroy_eq}
use buyback.Chain.{Action, PendingTx, PendingOutcome, TxRef, EventSummary}
use buyback.State.{PaymentRecord, BuybackReceipt, BuybackBudget}
use buyback.State.Moves.{record_failure}
use buyback.State.Budget.{validate}
use buyback.Error.{Result, ok, err}
use buyback.Keys.{Ss58}
use buyback.Engine.Apply.{apply, apply_action, apply_buy, apply_destroy}
use buyback.Engine.Accounts.{Frozen, apply-Frozen}
use buyback.Engine.Checks.{validate_completed_buyback, destroy_name}
use buyback.Engine.Journal.{resolved, receipt, apply_or_quarantine}

-- A record whose journal is settled: the journal is gone, and what the store freezes is as before.
abbrev pub Settles : PaymentRecord → PaymentRecord → Type 0
Settles r r' = Frozen r r' × (r'.pending ≡ none)

record_failure-Frozen :
    (r s : PaymentRecord) (e : String) (max_attempts now : ℕ)
    → Settles r s
    → Settles r (record_failure s e max_attempts now)
unfolding record_failure
record_failure-Frozen r s e max_attempts now h = ground arith

included-Settles :
    (r : PaymentRecord) (p : PendingTx) (tx : TxRef) (s : EventSummary) (t : ℕ)
    (a : Result PaymentRecord)
    → apply r tx s ≡ a
    → Settles r (apply_or_quarantine r p tx t a)
included-Settles r p tx s t (ok applied) h =
    let f = apply-Frozen r tx s applied h in ground (arith, f)
included-Settles r p tx s t (err x) h = record_failure-Frozen r _ _ 1 t (ground arith)

-- However a journal is resolved, the record that is written has no journal, and its id, version,
-- identity and policy are those of before; nothing is written only when the chain says to wait.
pub resolved-Settles :
    (r : PaymentRecord) (p : PendingTx) (max_attempts now : ℕ) (outcome : PendingOutcome)
    → ((r' : PaymentRecord) → resolved r p max_attempts now outcome ≡ some r' → Settles r r')
      × (resolved r p max_attempts now outcome ≡ none → outcome ≡ PendingOutcome.wait)
unfolding resolved
resolved-Settles r p m t PendingOutcome.wait = (λ r' h. cc, λ h. refl)
resolved-Settles r p m t PendingOutcome.dead = (λ r' h. ground arith, λ h. cc)
resolved-Settles r p m t (PendingOutcome.included block_hash s) = (
  λ r' h. ground (
    arith,
    h,
    included-Settles r p (receipt p block_hash) s t (apply r (receipt p block_hash) s) refl,
    record_failure-Frozen r (record r { pending = none })
        "journaled transaction failed on finalized chain" m t,
  ),
  λ h. cc,
)

-- A budget that has been spent: for the full amount, on its subnet, and for some alpha.
pub record Bought (b : BuybackBudget) (tx : TxRef) (c : BuybackReceipt) : Type 0 where
  pub spent : c.tao_spent ≡ b.amount_rao
  pub subnet : c.netuid ≡ b.netuid
  pub some_alpha : 1 ≤ c.alpha_bought
  pub by_tx : c.stake_tx ≡ tx

module _ (b : BuybackBudget) (r : PaymentRecord) (p : PendingTx) (tx : TxRef) (s : EventSummary)
    (r' : PaymentRecord) (hp : r.pending ≡ some p) (h : apply r tx s ≡ ok r') where
  -- The receipt after the purchase of a budget.
  receipt-Bought :
      (limit_price : ℕ)
      → p.action ≡ Action.buy_stake b.netuid limit_price
      → tx.amount ≡ b.amount_rao
      → (c : BuybackReceipt) × (r'.buyback ≡ some c) × Bought b tx c
  unfolding apply apply_action apply_buy
  receipt-Bought limit_price ha hm = elim (Option-cases s.stake_added) [
    | inl e ↦ absurd (ground (arith, hp, ha, e))
    | inr ((tao, alpha), e) ↦ (
      record {
        netuid = b.netuid;
        tao_spent = tao;
        alpha_bought = alpha;
        limit_price = limit_price;
        stake_tx = tx;
        destroy_tx = none;
        alpha_destroyed = 0;
      },
      ground (arith, hp, ha, e),
      record {
        spent = ground (arith, hp, ha, e);
        subnet = refl;
        some_alpha = ground (arith, hp, ha, e);
        by_tx = refl;
      },
    )
  ]

  -- The receipt after the destruction of what was bought.
  destroyed_receipt :
      (c : BuybackReceipt) (recycle : Bool)
      → p.action ≡ Action.destroy b.netuid recycle
      → r.buyback ≡ some c
      → (r'.buyback ≡ some (record c { destroy_tx = some tx; alpha_destroyed = c.alpha_bought }))
        × (r'.buyback_done ≡ true)
  unfolding apply apply_action apply_destroy
  destroyed_receipt c recycle ha hc = ground (arith, hp, ha, hc)

-- If a valid budget is bought by a finalized transaction of its full amount, and what was bought
-- is destroyed by another that is the call the budget asks for, both applied from their journals
-- and with a block hash, then the record passes the check that the settlement makes.
pub bought_and_destroyed :
    ⦃codec : Ss58⦄ (b : BuybackBudget) (limit_price : ℕ) (recycle : Bool)
    (r r' t t' : PaymentRecord) (p q : PendingTx) (tx tx' : TxRef) (s s' : EventSummary)
    → validate b ≡ ok tt
    → t.buyback_budget ≡ some b
    → r.pending ≡ some p
    → p.action ≡ Action.buy_stake b.netuid limit_price
    → (tx.amount ≡ b.amount_rao) × (tx.block_hash ≢ "")
    → apply r tx s ≡ ok r'
    → t.buyback ≡ r'.buyback
    → t.pending ≡ some q
    → q.action ≡ Action.destroy b.netuid recycle
    → (tx'.action ≡ destroy_name b.destroy) × (tx'.block_hash ≢ "")
    → apply t tx' s' ≡ ok t'
    → validate_completed_buyback t' ≡ ok tt
unfolding validate_completed_buyback
bought_and_destroyed b limit_price recycle r r' t t' p q tx tx' s s' v hb hp ha hm h hc hq hd hn
      h' =
    let (c, e, k) = receipt-Bought b r p tx s r' hp h limit_price ha hm.0 in
    let (d, _) = destroyed_receipt b t q tx' s' t' hq h' c recycle hd (hc ∙ e) in
    let f = (apply-Frozen t tx' s' t' h').0 in
    ground (arith, d, f, k.spent, k.subnet, k.some_alpha, k.by_tx, v, hb, hm, hn)
