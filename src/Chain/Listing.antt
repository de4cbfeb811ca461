-- ===== src/Chain/Listing.antt =====
-- `deposits_in_block` of src/chain.rs lists exactly the stakes that the block credits.
use buyback.Base.{
  ℕ, ◌≡◌, refl, sym, ap, ◌∙◌, List, [], ◌∷◌, some, true, string_eq, arith, All, inl, inr,
  Bool-cases, Option-cases,
}
use buyback.Chain.{AccountId}
use buyback.Error.{Result, ok, err, ◌>>=◌, bind_ok}
use buyback.Chain.Deposits.{
  StakeAdded, BlockEvent, PricedBlock, Deposit, BlockDeposits, Hit, Hashes, Prices, contains,
  is_stake_added, push_hit, find_hits, successes, price_of, look_up, deposit_of, list_deposits,
  deposits_of, read_hashes, block_deposits, deposits_in_block,
}
use buyback.Chain.Credits.{
  AllRead, has_succeeded, IsCredit, IsPassed, other_event, no_extrinsic, not_watched,
  failed_extrinsic, Lists, no_event, credit, pass, IsPriced, IsListing,
}

-- A hit of a watched account.
record IsHit (watched : List AccountId) (ev : BlockEvent) (h : Hit) : Type 0 where
  is_added : is_stake_added ev ≡ true
  same_extrinsic : ev.extrinsic ≡ some h.extrinsic
  same_index : ev.index ≡ h.event_index
  same_stake : ev.fields ≡ ok h.stake
  is_watched : contains h.stake.coldkey watched ≡ true

data Hits (watched : List AccountId) (all : List BlockEvent)
    : List BlockEvent → List Hit → Type 0 where
  no_hit : Hits watched all [] []
  one_hit :
      (ev : BlockEvent) (h : Hit) (evs : List BlockEvent) (hs : List Hit)
      → IsHit watched ev h
      → Hits watched all evs hs
      → Hits watched all (ev ∷ evs) (h ∷ hs)
  skip :
      (ev : BlockEvent) (evs : List BlockEvent) (hs : List Hit)
      → IsPassed watched all ev
      → Hits watched all evs hs
      → Hits watched all (ev ∷ evs) hs

-- The events that could be read.
abbrev readable : List (Result BlockEvent) → List BlockEvent
readable [] = []
readable (ok ev ∷ rs) = ev ∷ readable rs
readable (err e ∷ rs) = readable rs

module _ (watched : List AccountId) (all : List BlockEvent) where
  found :
      (ev : BlockEvent) (evs : List BlockEvent) (hs hits : List Hit) (xt : ℕ) (stake : StakeAdded)
      → is_stake_added ev ≡ true
      → ev.extrinsic ≡ some xt
      → ev.fields ≡ ok stake
      → push_hit watched xt ev.index stake hs ≡ hits
      → Hits watched all evs hs
      → Hits watched all (ev ∷ evs) hits
  found ev evs hs hits xt stake added at fields pushed rest =
      elim (Bool-cases (contains stake.coldkey watched)) [
        | inl w ↦
            let e : record { extrinsic = xt; event_index = ev.index; stake = stake } ∷ hs ≡ hits =
              ground arith in
            rw (← e) (
              one_hit ev _ evs hs
                (record {
                  is_added = added;
                  same_extrinsic = at;
                  same_index = refl;
                  same_stake = fields;
                  is_watched = w;
                })
                rest)
        | inr n ↦
            let e : hs ≡ hits = ground arith in
            rw (← e) (skip ev evs hs (not_watched stake fields n) rest)
      ]

  -- What the loop does with one event.
  data Turn (ev : BlockEvent) (rs : List (Result BlockEvent)) (hits : List Hit) : Type 0 where
    passes : find_hits watched rs ≡ ok hits → IsPassed watched all ev → Turn ev rs hits
    reads :
        (hs : List Hit) (xt : ℕ) (stake : StakeAdded)
        → find_hits watched rs ≡ ok hs
        → is_stake_added ev ≡ true
        → ev.extrinsic ≡ some xt
        → ev.fields ≡ ok stake
        → push_hit watched xt ev.index stake hs ≡ hits
        → Turn ev rs hits

  find_hits-Turn :
      (ev : BlockEvent) (rs : List (Result BlockEvent)) (hits : List Hit)
      → find_hits watched (ok ev ∷ rs) ≡ ok hits
      → Turn ev rs hits
  unfolding find_hits
  find_hits-Turn ev rs hits h = elim (Bool-cases (is_stake_added ev)) [
    | inr other ↦ passes (ground arith) (other_event other)
    | inl added ↦ elim (Option-cases ev.extrinsic) [
      | inl nowhere ↦ passes (ground arith) (no_extrinsic nowhere)
      | inr (xt, at) ↦
          let h' : (ev.fields >>= (λ stake.
            find_hits watched rs >>= (λ hs. ok (push_hit watched xt ev.index stake hs))))
              ≡ ok hits =
            ground arith in
          let (stake, fields, h1) = bind_ok ev.fields _ _ h' in
          let (hs, later, h2) = bind_ok (find_hits watched rs) _ _ h1 in
          reads hs xt stake later added at fields cc
    ]
  ]

  find_hits-Hits :
      (rs : List (Result BlockEvent)) (hits : List Hit)
      → find_hits watched rs ≡ ok hits
      → AllRead rs (readable rs) × Hits watched all (readable rs) hits
  unfolding find_hits
  find_hits-Hits [] hits h = let e : [] ≡ hits = cc in (refl, rw (← e) no_hit)
  find_hits-Hits (err e ∷ rs) hits h = absurd cc
  find_hits-Hits (ok ev ∷ rs) hits h = elim (find_hits-Turn ev rs hits h) [
    | passes later passed ↦
        let (read, rest) = find_hits-Hits rs hits later in
        ((refl, read), skip ev (readable rs) hits passed rest)
    | reads hs xt stake later added at fields pushed ↦
        let (read, rest) = find_hits-Hits rs hs later in
        ((refl, read), found ev (readable rs) hs hits xt stake added at fields pushed rest)
  ]

successes-has_succeeded :
    (rs : List (Result BlockEvent)) (evs : List BlockEvent) (xts : List ℕ) (xt : ℕ)
    → successes rs ≡ ok xts
    → AllRead rs evs
    → contains xt xts ≡ has_succeeded evs xt
unfolding successes contains
successes-has_succeeded [] evs xts xt h read = ground arith
successes-has_succeeded (err e ∷ rs) evs xts xt h read = absurd cc
successes-has_succeeded (ok ev ∷ rs) [] xts xt h read = absurd read
successes-has_succeeded (ok ev ∷ rs) (ev' ∷ evs) xts xt h read =
    let (later, done, h1) = bind_ok (successes rs) _ _ h in
    ground (arith, successes-has_succeeded rs evs later xt done read.1)

same_answer :
    (s v spot moving : ℕ) (prices next : Prices)
    → ◌≡◌ {A = Result ((ℕ × ℕ) × Prices)} (ok ((s, v), prices)) (ok ((spot, moving), next))
    → (s ≡ spot) × (v ≡ moving) × (prices ≡ next)
same_answer s v spot moving prices next h = (cc, cc, cc)

module _ (number : ℕ) (at : PricedBlock) where
  -- Prices that the block was asked for.
  abbrev Known : Prices → Type 0
  Known [] = Unit
  Known ((n, spot, moving) ∷ prices) =
      (at.spot_price n ≡ ok spot) × (at.moving_price n ≡ ok moving) × Known prices

  price_of-Known :
      (n spot moving : ℕ) (prices : Prices)
      → Known prices
      → price_of n prices ≡ some (spot, moving)
      → (at.spot_price n ≡ ok spot) × (at.moving_price n ≡ ok moving)
  unfolding price_of
  price_of-Known n spot moving [] known h = absurd cc
  price_of-Known n spot moving ((m, s, v) ∷ prices) known h =
      ground (arith, price_of-Known n spot moving prices)

  look_up-Known :
      (n spot moving : ℕ) (prices next : Prices)
      → Known prices
      → look_up number at n prices ≡ ok ((spot, moving), next)
      → (at.spot_price n ≡ ok spot) × (at.moving_price n ≡ ok moving) × Known next
  unfolding look_up
  look_up-Known n spot moving prices next known h = elim (Option-cases (price_of n prices)) [
    | inl missing ↦
        let h' : (at.spot_price n >>= λ s.
        at.moving_price n >>= λ v. ok ((s, v), (n, s, v) ∷ prices))
            ≡ ok ((spot, moving), next) =
          ground arith in
        let (s, a, h1) = bind_ok (at.spot_price n) _ _ h' in
        let (v, b, h2) = bind_ok (at.moving_price n) _ _ h1 in
        let (same_spot, same_moving, e) = same_answer s v spot moving _ next h2 in
        (a ∙ ap ok same_spot, b ∙ ap ok same_moving, rw (← e) (a, b, known))
    | inr ((s, v), old) ↦ let (a, b) = price_of-Known n s v prices known old in ground arith
  ]

  module _ (watched : List AccountId) (all : List BlockEvent) (succeeded : List ℕ) (hashes : Hashes)
      (same : (xt : ℕ) → contains xt succeeded ≡ has_succeeded all xt) where
    credited :
        (ev : BlockEvent) (h : Hit) (price : ℕ × ℕ)
        → IsHit watched ev h
        → has_succeeded all h.extrinsic ≡ true
        → IsCredit watched all ev (deposit_of number at hashes h price)
    credited ev h price hit done = record {
      is_added = hit.is_added;
      same_extrinsic = hit.same_extrinsic;
      same_index = hit.same_index;
      same_stake = hit.same_stake;
      is_watched = hit.is_watched;
      succeeded = done;
    }

    list_deposits-Lists :
        (prices : Prices) (evs : List BlockEvent) (hits : List Hit) (ds : List Deposit)
        → Known prices
        → Hits watched all evs hits
        → list_deposits number at succeeded hashes prices hits ≡ ok ds
        → Lists watched all evs ds × All (IsPriced number at) ds
    unfolding list_deposits
    list_deposits-Lists prices evs hits ds known no_hit h =
        let e : [] ≡ ds = cc in rw (← e) (no_event, tt)
    list_deposits-Lists prices evs hits ds known (skip ev evs' _ passed rest) h =
        let (lists, priced) = list_deposits-Lists prices evs' hits ds known rest h in
        (pass ev evs' ds passed lists, priced)
    list_deposits-Lists prices evs hits ds known (one_hit ev hit evs' hs is_hit rest) h =
        elim (Bool-cases (contains hit.extrinsic succeeded)) [
          | inr failed ↦
              let h' : list_deposits number at succeeded hashes prices hs ≡ ok ds = ground arith in
              let (lists, priced) = list_deposits-Lists prices evs' hs ds known rest h' in
              (
                pass ev evs' ds
                    (failed_extrinsic hit.extrinsic is_hit.same_extrinsic
                      (sym (same hit.extrinsic) ∙ failed))
                    lists,
                priced,
              )
          | inl done ↦
              let h' : (look_up number at hit.stake.netuid prices >>= λ p.
              list_deposits number at succeeded hashes p.1 hs >>= λ later.
              ok (deposit_of number at hashes hit p.0 ∷ later))
                  ≡ ok ds =
                ground arith in
              let (p, looked, h1) = bind_ok (look_up number at hit.stake.netuid prices) _ _ h' in
              let (later, listed, h2) =
                bind_ok (list_deposits number at succeeded hashes p.1 hs) _ _ h1 in
              let (spot, moving, known') =
                look_up-Known hit.stake.netuid p.0.0 p.0.1 prices p.1 known looked in
              let (lists, priced) = list_deposits-Lists p.1 evs' hs later known' rest listed in
              let d = deposit_of number at hashes hit p.0 in
              let e : d ∷ later ≡ ds = cc in
              rw (← e) (
                credit ev d evs' later
                    (credited ev hit p.0 is_hit (sym (same hit.extrinsic) ∙ done)) lists,
                (
                  record {
                    same_number = refl;
                    same_hash = refl;
                    has_spot = spot;
                    has_moving = moving;
                  },
                  priced,
                ),
              )
        ]

-- No hit is no deposit.
Hits-Lists :
    (watched : List AccountId) (all evs : List BlockEvent)
    → Hits watched all evs []
    → Lists watched all evs []
Hits-Lists watched all evs no_hit = no_event
Hits-Lists watched all evs (skip ev evs' _ passed rest) =
    pass ev evs' [] passed (Hits-Lists watched all evs' rest)

deposits_of-Lists :
    (number : ℕ) (at : PricedBlock) (watched : List AccountId) (rs : List (Result BlockEvent))
    (evs : List BlockEvent) (hits : List Hit) (ds : List Deposit)
    → AllRead rs evs
    → Hits watched evs evs hits
    → deposits_of number at rs hits ≡ ok ds
    → Lists watched evs evs ds × All (IsPriced number at) ds
unfolding deposits_of
deposits_of-Lists number at watched rs evs [] ds read hits h =
    let e : [] ≡ ds = cc in rw (← e) (Hits-Lists watched evs evs hits, tt)
deposits_of-Lists number at watched rs evs (hit ∷ hs) ds read hits h =
    let (exts, _, h1) = bind_ok at.extrinsics _ _ h in
    let (hashes, _, h2) = bind_ok (read_hashes [] exts) _ _ h1 in
    let (xts, done, h3) = bind_ok (successes rs) _ _ h2 in
    list_deposits-Lists number at watched evs xts hashes
      (λ xt. successes-has_succeeded rs evs xts xt done read) [] evs (hit ∷ hs) ds tt hits h3

listing :
    (at_block : ℕ → Result PricedBlock) (number : ℕ) (watched : List AccountId)
    (out : BlockDeposits) (at : PricedBlock) (rs : List (Result BlockEvent)) (evs : List BlockEvent)
    (ds : List Deposit)
    → at_block number ≡ ok at
    → at.events ≡ ok rs
    → AllRead rs evs
    → ◌≡◌ {A = Result BlockDeposits}
        (ok (record { number = number; block_hash = at.block_hash; deposits = ds }))
        (ok out)
    → Lists watched evs evs ds
    → All (IsPriced number at) ds
    → IsListing at_block number watched out
listing at_block number watched out at rs evs ds read served all_read h lists priced =
    let e : record { number = number; block_hash = at.block_hash; deposits = ds } ≡ out = cc in
    rw (← e) (record {
      at = at;
      results = rs;
      events = evs;
      is_read = read;
      has_events = served;
      all_read = all_read;
      same_block = (refl, refl);
      lists = lists;
      priced = priced;
    })

-- The deposits that are found in a block for some watched accounts are what the block credits to them:
-- every `StakeAdded` of a watched account in an extrinsic that succeeded, signed or not, is listed, once and in order,
-- with its own fields, the block, and the prices of its subnet at the block; no other event is.
pub deposits_in_block-IsListing :
    (at_block : ℕ → Result PricedBlock) (number : ℕ) (account : AccountId)
    (accounts : List AccountId) (out : BlockDeposits)
    → deposits_in_block at_block number (account ∷ accounts) ≡ ok out
    → IsListing at_block number (account ∷ accounts) out
unfolding deposits_in_block block_deposits
deposits_in_block-IsListing at_block number account accounts out h =
    let watched = account ∷ accounts in
    let (at, read, h1) = bind_ok (at_block number) _ _ h in
    let (ds, listed, h2) = bind_ok (block_deposits number at watched) _ _ h1 in
    let (rs, served, h3) = bind_ok at.events _ _ listed in
    let (hits, found_hits, h4) = bind_ok (find_hits watched rs) _ _ h3 in
    let evs = readable rs in
    let (all_read, hs) = find_hits-Hits watched evs rs hits found_hits in
    let (lists, priced) = deposits_of-Lists number at watched rs evs hits ds all_read hs h4 in
    listing at_block number watched out at rs evs ds read served all_read h2 lists priced
