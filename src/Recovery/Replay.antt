-- ===== src/Recovery/Replay.antt =====
-- The loop of `replay` in src/recovery.rs: the accounting of a payment, computed again from the archived
-- transactions.
use buyback.Base.{
  ℕ, zero, suc, String, List, [], ◌∷◌, ◌++◌, Option, none, some, Bool, true, false, ◌&&◌, ◌||◌, not,
  ◌=?◌, ◌==◌, ltb, string_eq, is_some, is_none, length,
}
use buyback.Chain.{AccountId, ChainCall, TxRef, EventSummary, has, expected_event}
use buyback.Config.{Destroy, destroy_eq}
use buyback.State.{PaymentRecord, BuybackReceipt, payment_state_eq}
use buyback.Error.{Error, Result, ok, err, ◌>>=◌, ◌>>◌, fail_if, ok_or}
use buyback.Keys.{Ss58, ss58, parse_ss58}
use buyback.Recovery.{LegacyManifest, LegacyTransaction, positions_eq, receipt_eq}

-- `invalid()`
abbrev pub disagrees : Error
disagrees = Error.store "legacy call, events or stage disagrees with audited job"

-- The variables of the loop.
pub record Replayed : Type 0 where
  pub funded : ℕ
  pub positions : List (String × ℕ)
  pub consolidated : ℕ
  pub dust : Bool
  pub post_sweep : Bool
  pub buyback : Option BuybackReceipt

abbrev pub nothing_replayed : Replayed
nothing_replayed = record {
  funded = 0;
  positions = [];
  consolidated = 0;
  dust = false;
  post_sweep = false;
  buyback = none;
}

-- `o == Some(n)`
abbrev pub is_exactly : Option ℕ → ℕ → Bool
is_exactly none n = false
is_exactly (some k) n = k == n

-- `positions.iter().any(|(h, _)| h == &source)`
unfoldable pub has_position : String → List (String × ℕ) → Bool
has_position source [] = false
has_position source ((h, n) ∷ ps) = h =? source || has_position source ps

-- `positions.get(i) == Some(&(source, alpha))`
unfoldable pub is_position : List (String × ℕ) → ℕ → String → ℕ → Bool
is_position [] i source alpha = false
is_position ((h, n) ∷ ps) zero source alpha = h =? source && n == alpha
is_position ((h, n) ∷ ps) (suc i) source alpha = is_position ps i source alpha

-- The receipt after the purchase was destroyed.
abbrev pub destroyed_by : BuybackReceipt → TxRef → ℕ → BuybackReceipt
destroyed_by b receipt alpha = record b { destroy_tx = some receipt; alpha_destroyed = alpha }

module _ ⦃codec : Ss58⦄ (r : PaymentRecord) (m : LegacyManifest)
    (treasury deposit hotkey : AccountId) where
  -- `m.return_dust || r.detected_tao > 0`
  abbrev pub returns_dust : Bool
  returns_dust = m.return_dust || ltb 0 r.detected_tao

  -- `m.consolidate && consolidated != positions.len()`
  abbrev pub is_unconsolidated : Replayed → Bool
  is_unconsolidated p = m.consolidate && not (p.consolidated == length p.positions)

  -- The arm of both calls that destroy alpha.
  unfoldable pub replay_destroy :
      Replayed
      → TxRef
      → AccountId
      → EventSummary
      → (target : AccountId) (netuid alpha : ℕ) → Destroy
      → Result Replayed
  replay_destroy p receipt signer s target netuid alpha destroy = do
    fail_if (not (signer == treasury)) disagrees
    b ← ok_or m.budget disagrees
    bought ← ok_or p.buyback disagrees
    fail_if
        (not (b.destroy =? destroy)
          || not (ss58 target =? b.hotkey)
          || not (netuid == b.netuid)
          || is_some bought.destroy_tx
          || not (alpha == bought.alpha_bought)
          || not (is_exactly s.alpha_destroyed alpha))
        disagrees
    ok (record p { buyback = some (destroyed_by bought receipt alpha) })

  -- One arm of the `match` on the call, with its guard; a call that no arm takes is invalid.
  unfoldable pub replay_call :
      Replayed → TxRef → AccountId → EventSummary → ChainCall → Result Replayed
  replay_call p receipt signer s (ChainCall.transfer_tao dest amount) = do
    fail_if
        (not (
          signer == treasury
          && dest == deposit
          && p.funded == 0
          && length p.positions == 0
          && not p.dust
          && is_none p.buyback
          && ltb 0 amount))
        disagrees
    fail_if (not (is_exactly s.transferred amount)) disagrees
    ok (record p { funded = amount })
  replay_call p receipt signer s (ChainCall.transfer_stake dest_coldkey source netuid alpha) = do
    fail_if
        (not (
          signer == deposit
          && dest_coldkey == treasury
          && netuid == r.netuid
          && not p.post_sweep
          && p.consolidated == 0
          && not p.dust
          && is_none p.buyback
          && ltb 0 alpha))
        disagrees
    fail_if (has_position (ss58 source) p.positions) disagrees
    ok (record p { positions = p.positions ++ (ss58 source, alpha) ∷ [] })
  replay_call p receipt signer s (ChainCall.move_stake from_hotkey to_hotkey netuid alpha) = do
    fail_if
        (not (
          m.consolidate
          && signer == treasury
          && to_hotkey == hotkey
          && netuid == r.netuid
          && not p.dust
          && is_none p.buyback))
        disagrees
    fail_if (not (is_position p.positions p.consolidated (ss58 from_hotkey) alpha)) disagrees
    ok (record p { post_sweep = true; consolidated = suc p.consolidated })
  replay_call p receipt signer s (ChainCall.transfer_all dest) = do
    fail_if
        (not (
          returns_dust && signer == deposit && dest == treasury && not p.dust && is_none p.buyback))
        disagrees
    fail_if (is_unconsolidated p) disagrees
    ok (record p { post_sweep = true; dust = true })
  replay_call p receipt signer s (ChainCall.add_stake_limit target netuid tao limit_price partly) =
      do
        fail_if (partly || not (signer == treasury && is_none p.buyback)) disagrees
        fail_if (is_unconsolidated p || (returns_dust && not p.dust)) disagrees
        b ← ok_or m.budget disagrees
        (spent, bought) ← ok_or s.stake_added disagrees
        fail_if
            (not (ss58 target =? b.hotkey)
              || not (netuid == b.netuid)
              || not (tao == b.amount_rao)
              || not (spent == tao)
              || bought == 0)
            disagrees
        ok (record p {
          post_sweep = true;
          buyback = some (record {
            netuid = netuid;
            tao_spent = spent;
            alpha_bought = bought;
            limit_price = limit_price;
            stake_tx = receipt;
            destroy_tx = none;
            alpha_destroyed = 0;
          });
        })
  replay_call p receipt signer s (ChainCall.burn_alpha target netuid alpha) =
      replay_destroy p receipt signer s target netuid alpha Destroy.burn
  replay_call p receipt signer s (ChainCall.recycle_alpha target netuid alpha) =
      replay_destroy p receipt signer s target netuid alpha Destroy.recycle
  replay_call p receipt signer s (ChainCall.associate_hotkey _) = err disagrees

  -- What the archived events must show of every call.
  abbrev pub is_refused : EventSummary → String × String → Bool
  is_refused s (pallet, event) =
      s.failed || not (has s "System" "ExtrinsicSuccess") || not (has s pallet event)

  -- The loop over the transactions and their summaries.
  unfoldable pub replay_all :
      Replayed → List LegacyTransaction → List EventSummary → Result Replayed
  replay_all p [] ss = ok p
  replay_all p (t ∷ ts) [] = ok p
  replay_all p (t ∷ ts) (s ∷ ss) = do
    signer ← parse_ss58 t.signer
    fail_if (is_refused s (expected_event t.call)) disagrees
    next ← replay_call p t.receipt signer s t.call
    replay_all next ts ss
