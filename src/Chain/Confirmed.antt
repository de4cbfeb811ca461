-- ===== src/Chain/Confirmed.antt =====
-- What a transaction that `broadcast` of src/chain.rs returns has shown.
use buyback.Base.{◌≡◌, refl, ◌∙◌, List, some, true, not, is_some, arith}
use buyback.Chain.{
  ChainCall, EventSummary, FinalizedTx, PreparedTx, TxRef, name, amount, expected_event, has,
}
use buyback.Chain.Events.{Event, from_events}
use buyback.Chain.Summary.{IsConsistent, from_events-IsConsistent}
use buyback.Chain.Client.{View, InBlock, succeed, broadcast}
use buyback.Error.{Result, ok, fail_if, bind_ok, check_ok, fail_if_ok}

-- The amount that the expected event of a call carries has been read.
abbrev pub HasAmount : ChainCall → EventSummary → Type 0
HasAmount (ChainCall.transfer_tao _ _) s = is_some s.transferred ≡ true
HasAmount (ChainCall.transfer_all _) s = is_some s.transferred ≡ true
HasAmount (ChainCall.transfer_stake _ _ _ _) s = is_some s.stake_moved_tao ≡ true
HasAmount (ChainCall.move_stake _ _ _ _) s = is_some s.stake_moved_tao ≡ true
HasAmount (ChainCall.add_stake_limit _ _ _ _ _) s = is_some s.stake_added ≡ true
HasAmount (ChainCall.burn_alpha _ _ _) s = is_some s.alpha_destroyed ≡ true
HasAmount (ChainCall.recycle_alpha _ _ _) s = is_some s.alpha_destroyed ≡ true
HasAmount (ChainCall.associate_hotkey _) s = Unit

-- A transaction of the call that was prepared, in the block that the node reported, with the events of
-- its success.
pub record IsConfirmed (at : View) (p : PreparedTx) (f : FinalizedTx) : Type 0 where
  pub in_block : InBlock
  pub events : List (Result Event)
  pub is_watched : at.watch p.bytes ≡ ok in_block
  pub has_succeeded : in_block.events ≡ some events
  pub same_call : (f.tx.action ≡ name p.call) × (f.tx.amount ≡ amount p.call)
  pub same_place : (f.tx.tx_hash ≡ p.tx_hash) × (f.tx.block_hash ≡ in_block.block_hash)
  pub is_summary : from_events events ≡ ok f.summary
  pub has_event : has f.summary (expected_event p.call).0 (expected_event p.call).1 ≡ true
  pub has_amount : HasAmount p.call f.summary

event-HasAmount :
    (call : ChainCall) (s : EventSummary)
    → IsConsistent s
    → has s (expected_event call).0 (expected_event call).1 ≡ true
    → HasAmount call s
unfolding expected_event
event-HasAmount (ChainCall.transfer_tao _ _) s c h = c.transferred_iff ∙ h
event-HasAmount (ChainCall.transfer_all _) s c h = c.transferred_iff ∙ h
event-HasAmount (ChainCall.transfer_stake _ _ _ _) s c h = c.moved_iff ∙ rw h (ground arith)
event-HasAmount (ChainCall.move_stake _ _ _ _) s c h = c.moved_iff ∙ ground arith
event-HasAmount (ChainCall.add_stake_limit _ _ _ _ _) s c h = c.added_iff ∙ h
event-HasAmount (ChainCall.burn_alpha _ _ _) s c h = c.destroyed_iff ∙ ground arith
event-HasAmount (ChainCall.recycle_alpha _ _ _) s c h = c.destroyed_iff ∙ ground arith
event-HasAmount (ChainCall.associate_hotkey _) s c h = tt

succeed-events :
    (call : ChainCall) (b : InBlock) (events : List (Result Event))
    → succeed call b ≡ ok events
    → b.events ≡ some events
unfolding succeed
succeed-events call b events h = ground arith

confirmed :
    (at : View) (p : PreparedTx) (f : FinalizedTx) (b : InBlock) (events : List (Result Event))
    (s : EventSummary)
    → at.watch p.bytes ≡ ok b
    → succeed p.call b ≡ ok events
    → from_events events ≡ ok s
    → has s (expected_event p.call).0 (expected_event p.call).1 ≡ true
    → ◌≡◌ {A = Result FinalizedTx}
        (ok (record {
          tx = record {
            action = name p.call;
            tx_hash = p.tx_hash;
            block_hash = b.block_hash;
            amount = amount p.call;
          };
          summary = s;
        }))
        (ok f)
    → IsConfirmed at p f
confirmed at p f b events s watched done summary seen h =
    let tx : TxRef = record {
      action = name p.call;
      tx_hash = p.tx_hash;
      block_hash = b.block_hash;
      amount = amount p.call;
    } in
    let e : record { tx = tx; summary = s } ≡ f = cc in
    rw (← e) (record {
      in_block = b;
      events = events;
      is_watched = watched;
      has_succeeded = succeed-events p.call b events done;
      same_call = (refl, refl);
      same_place = (refl, refl);
      is_summary = summary;
      has_event = seen;
      has_amount = event-HasAmount p.call s (from_events-IsConsistent events s summary) seen;
    })

-- A broadcast that returns a transaction has seen it finalized: it is the prepared one, in the block that
-- the node reported, its extrinsic succeeded, the event that its call promises is among the events, and
-- the amount in that event has been read.
pub broadcast-IsConfirmed :
    (at : View) (p : PreparedTx) (f : FinalizedTx) → broadcast (ok at) p ≡ ok f → IsConfirmed at p f
unfolding broadcast
broadcast-IsConfirmed at p f h =
    let (b, watched, h1) = bind_ok (at.watch p.bytes) _ _ h in
    let (events, done, h2) = bind_ok (succeed p.call b) _ _ h1 in
    let (s, summary, h3) = bind_ok (from_events events) _ _ h2 in
    let (seen, h4) =
      check_ok (fail_if (not (has s (expected_event p.call).0 (expected_event p.call).1)) _) _ _
        h3 in
    let not_absent =
      fail_if_ok (not (has s (expected_event p.call).0 (expected_event p.call).1)) _ seen in
    confirmed at p f b events s watched done summary (ground arith) h4
