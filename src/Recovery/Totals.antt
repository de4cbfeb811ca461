-- ===== src/Recovery/Totals.antt =====
-- What `replay` counts: the accounting that it computes is the sum over the calls of the manifest.
use buyback.Base.{
  ℕ, ◌+◌, ◌≡◌, String, List, [], ◌∷◌, ◌++◌, some, Bool, true, false, arith, length, is_some, ◌==◌,
  not,
}
use buyback.Chain.{AccountId, ChainCall, TxRef, EventSummary, expected_event}
use buyback.State.{PaymentRecord}
use buyback.Error.{Error, Result, ok, fail_if, ok_or, bind_ok, check_ok, fail_if_ok, ok_or_ok}
use buyback.Keys.{Ss58, ss58, parse_ss58}
use buyback.Recovery.{LegacyManifest, LegacyTransaction, RecoveryReport}
use buyback.Recovery.Manifest.{validate_manifest}
use buyback.Recovery.Replay.{
  Replayed, nothing_replayed, replay_destroy, replay_call, replay_all, is_refused, disagrees,
}
use buyback.Recovery.Import.{
  sum_positions, is_different, is_irreproducible, imported, report_of, replay,
}

-- What a call adds to the funding of the deposit wallet, to the alpha swept from it, and to the numbers
-- of consolidations, of dust returns and of purchases.
unfoldable pub funding : ChainCall → ℕ
funding (ChainCall.transfer_tao _ n) = n
funding _ = 0

unfoldable pub sweeping : ChainCall → ℕ
sweeping (ChainCall.transfer_stake _ _ _ alpha) = alpha
sweeping _ = 0

unfoldable pub moves : ChainCall → ℕ
moves (ChainCall.move_stake _ _ _ _) = 1
moves _ = 0

unfoldable pub returns : ChainCall → ℕ
returns (ChainCall.transfer_all _) = 1
returns _ = 0

unfoldable pub purchases : ChainCall → ℕ
purchases (ChainCall.add_stake_limit _ _ _ _ _) = 1
purchases _ = 0

-- The sum over all transactions.
unfoldable pub total : (ChainCall → ℕ) → List LegacyTransaction → ℕ
total f [] = 0
total f (t ∷ ts) = f t.call + total f ts

abbrev pub as_number : Bool → ℕ
as_number true = 1
as_number false = 0

unfoldable pub sum : List (String × ℕ) → ℕ
sum [] = 0
sum ((h, n) ∷ ps) = n + sum ps

sum-append : (ps : List (String × ℕ)) (h : String) (n : ℕ) → sum (ps ++ (h, n) ∷ []) ≡ sum ps + n
unfolding sum
sum-append [] h n = omega arith
sum-append ((h', n') ∷ ps) h n = omega (arith, sum-append ps h n)

sum_positions-sum :
    (acc : ℕ) (ps : List (String × ℕ)) (n : ℕ) → sum_positions acc ps ≡ some n → n ≡ acc + sum ps
unfolding sum sum_positions
sum_positions-sum acc [] n h = ground arith
sum_positions-sum acc ((k, a) ∷ ps) n h = ground (arith, sum_positions-sum (acc + a) ps n)

-- What the calls so far and the calls to come make together.
record Counts (p : Replayed) (call : ChainCall) (p' : Replayed) : Type 0 where
  counts_funding : p'.funded ≡ p.funded + funding call
  counts_sweeping : sum p'.positions ≡ sum p.positions + sweeping call
  counts_moves : p'.consolidated ≡ p.consolidated + moves call
  counts_returns : as_number p'.dust ≡ as_number p.dust + returns call
  counts_purchases : as_number (is_some p'.buyback) ≡ as_number (is_some p.buyback) + purchases call

-- The same for a list of transactions.
record Totals (p : Replayed) (ts : List LegacyTransaction) (p' : Replayed) : Type 0 where
  total_funding : p'.funded ≡ p.funded + total funding ts
  total_sweeping : sum p'.positions ≡ sum p.positions + total sweeping ts
  total_moves : p'.consolidated ≡ p.consolidated + total moves ts
  total_returns : as_number p'.dust ≡ as_number p.dust + total returns ts
  total_purchases :
      as_number (is_some p'.buyback) ≡ as_number (is_some p.buyback) + total purchases ts

no_more_Totals : (p : Replayed) → Totals p [] p
unfolding total
no_more_Totals p = ground arith

one_more_Totals :
    (p q : Replayed) (t : LegacyTransaction) (ts : List LegacyTransaction) (p' : Replayed)
    → Counts p t.call q
    → Totals q ts p'
    → Totals p (t ∷ ts) p'
unfolding total
one_more_Totals p q t ts p' c h = ground arith

module _ ⦃codec : Ss58⦄ (r : PaymentRecord) (m : LegacyManifest)
    (treasury deposit hotkey : AccountId) where
  abbrev steps : Replayed → TxRef → AccountId → EventSummary → ChainCall → Result Replayed
  steps = replay_call r m treasury deposit hotkey

  replay_call-Counts :
      (p : Replayed) (receipt : TxRef) (signer : AccountId) (s : EventSummary) (call : ChainCall)
      (p' : Replayed)
      → steps p receipt signer s call ≡ ok p'
      → Counts p call p'
  unfolding replay_call replay_destroy funding sweeping moves returns purchases
  replay_call-Counts p receipt signer s (ChainCall.transfer_tao dest n) p' h = ground arith
  replay_call-Counts p receipt signer s (ChainCall.transfer_all dest) p' h = ground arith
  replay_call-Counts p receipt signer s (ChainCall.transfer_stake dest source netuid alpha) p' h =
      ground (arith, sum-append p.positions (ss58 source) alpha)
  replay_call-Counts p receipt signer s (ChainCall.move_stake from_hotkey to_hotkey netuid alpha) p'
        h =
      ground arith
  replay_call-Counts p receipt signer s (ChainCall.add_stake_limit target netuid tao price partly)
        p' h =
      ground arith
  replay_call-Counts p receipt signer s (ChainCall.associate_hotkey target) p' h = ground arith
  replay_call-Counts p receipt signer s (ChainCall.burn_alpha target netuid alpha) p' h =
      ground arith
  replay_call-Counts p receipt signer s (ChainCall.recycle_alpha target netuid alpha) p' h =
      ground arith

  replay_all-next :
      (p : Replayed) (t : LegacyTransaction) (ts : List LegacyTransaction) (s : EventSummary)
      (ss : List EventSummary) (p' : Replayed)
      → replay_all r m treasury deposit hotkey p (t ∷ ts) (s ∷ ss) ≡ ok p'
      → (signer : AccountId) × (q : Replayed) × (steps p t.receipt signer s t.call ≡ ok q)
        × (replay_all r m treasury deposit hotkey q ts ss ≡ ok p')
  unfolding replay_all
  replay_all-next p t ts s ss p' h =
      let (signer, _, h1) = bind_ok (parse_ss58 t.signer) _ _ h in
      let (_, h2) =
        check_ok
          (fail_if (is_refused r m treasury deposit hotkey s (expected_event t.call)) disagrees) _ _
          h1 in
      let (q, done, h3) = bind_ok (steps p t.receipt signer s t.call) _ _ h2 in
      (signer, q, done, h3)

  replay_all-Totals :
      (p : Replayed) (ts : List LegacyTransaction) (ss : List EventSummary) (p' : Replayed)
      → length ss ≡ length ts
      → replay_all r m treasury deposit hotkey p ts ss ≡ ok p'
      → Totals p ts p'
  unfolding replay_all
  replay_all-Totals p [] ss p' l h = let e : p ≡ p' = cc in rw (← e) (no_more_Totals p)
  replay_all-Totals p (t ∷ ts) [] p' l h = absurd (omega arith)
  replay_all-Totals p (t ∷ ts) (s ∷ ss) p' l h =
      let (signer, q, step, rest) = replay_all-next p t ts s ss p' h in
      one_more_Totals p q t ts p' (replay_call-Counts p t.receipt signer s t.call q step)
        (replay_all-Totals q ts ss p' (omega arith) rest)

-- The accounting of a record, read from the calls of a manifest alone.
pub record IsReproduced (r : PaymentRecord) (ts : List LegacyTransaction) : Type 0 where
  pub funded_by : r.funded_tao ≡ total funding ts
  pub swept_by : r.swept_alpha ≡ total sweeping ts
  pub consolidated_by : r.consolidated ≡ total moves ts
  pub returned_by : as_number r.dust_returned ≡ total returns ts
  pub bought_by : as_number (is_some r.buyback) ≡ total purchases ts

same_accounting :
    (r : PaymentRecord) (p : Replayed) (n : ℕ)
    → is_different r p n ≡ false
    → (p.funded ≡ r.funded_tao)
      × (n ≡ r.swept_alpha)
      × (p.consolidated ≡ r.consolidated)
      × (p.dust ≡ r.dust_returned)
      × (p.buyback ≡ r.buyback)
unfolding is_different
same_accounting r p n same = ground arith

reproducible_same :
    (r : PaymentRecord) (m : LegacyManifest) (p : Replayed) (n : ℕ)
    → is_irreproducible r m p n ≡ false
    → is_different r p n ≡ false
unfolding is_irreproducible
reproducible_same r m p n same = ground arith

reproducible-IsReproduced :
    (r : PaymentRecord) (m : LegacyManifest) (p : Replayed) (n : ℕ)
    → is_irreproducible r m p n ≡ false
    → n ≡ sum p.positions
    → Totals nothing_replayed m.transactions p
    → IsReproduced r m.transactions
unfolding sum
reproducible-IsReproduced r m p n same e totals =
    let (funded, swept, moved, dust, bought) =
      same_accounting r p n (reproducible_same r m p n same) in
    record {
      funded_by = omega (arith, totals.total_funding);
      swept_by = omega (arith, totals.total_sweeping);
      consolidated_by = omega (arith, totals.total_moves);
      returned_by = rw (← dust) (omega (arith, totals.total_returns));
      bought_by = rw (← bought) (omega (arith, totals.total_purchases));
    }

-- A replay that succeeds changes nothing of the record but its identity and its policy, and shows that
-- the accounting stored in it is what the calls of the manifest add up to: the TAO sent to the deposit
-- wallet, the alpha swept, the number of stakes consolidated, at most one return of dust and at
-- most one purchase.
pub replay-IsReproduced :
    ⦃codec : Ss58⦄ (r : PaymentRecord) (m : LegacyManifest) (ss : List EventSummary) (head : ℕ)
    (hash : String) (next : PaymentRecord) (report : RecoveryReport)
    → replay r m (ss, head, hash) ≡ ok (next, report)
    → (next ≡ imported r m) × (report ≡ report_of r m head hash) × IsReproduced r m.transactions
unfolding replay
replay-IsReproduced r m ss head hash next report h =
    let (_, h1) = check_ok (validate_manifest r m) _ _ h in
    let (l, h2) =
      check_ok
        (fail_if (not (length ss == length m.transactions))
          (Error.store "missing archived receipts"))
        _ _ h1 in
    let (treasury, _, h3) = bind_ok (parse_ss58 m.treasury) _ _ h2 in
    let (deposit, _, h4) = bind_ok (parse_ss58 r.address) _ _ h3 in
    let (hotkey, _, h5) = bind_ok (parse_ss58 m.treasury_hotkey) _ _ h4 in
    let (p, replayed, h6) =
      bind_ok (replay_all r m treasury deposit hotkey nothing_replayed m.transactions ss) _ _ h5 in
    let (n, summed, h7) =
      bind_ok (ok_or (sum_positions 0 p.positions) (Error.store "legacy amount overflow")) _ _ h6 in
    let (same, h8) =
      check_ok
        (fail_if (is_irreproducible r m p n)
          (Error.store "legacy receipts do not reproduce stored accounting"))
        _ _ h7 in
    let count : length ss ≡ length m.transactions = ground arith in
    let totals =
      replay_all-Totals r m treasury deposit hotkey nothing_replayed m.transactions ss p count
        replayed in
    let e : n ≡ sum p.positions =
      omega (arith, sum_positions-sum 0 p.positions n (ok_or_ok _ _ _ summed)) in
    (cc, cc, reproducible-IsReproduced r m p n (fail_if_ok _ _ same) e totals)
