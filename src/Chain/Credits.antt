-- ===== src/Chain/Credits.antt =====
-- Which stakes a block credits to watched accounts: what `deposits_in_block` of src/chain.rs is to list.
use buyback.Base.{
  ℕ, ◌≡◌, List, [], ◌∷◌, Option, none, some, Bool, true, false, ◌&&◌, ◌||◌, ◌==◌, string_eq, All,
}
use buyback.Chain.{AccountId}
use buyback.Error.{Result, ok, err}
use buyback.Chain.Deposits.{
  StakeAdded, BlockEvent, PricedBlock, Deposit, BlockDeposits, contains, is_stake_added, is_success,
}

-- The events of a block, all of them read.
abbrev pub AllRead : List (Result BlockEvent) → List BlockEvent → Type 0
AllRead [] evs = evs ≡ []
AllRead (err e ∷ rs) evs = ⊥
AllRead (ok ev ∷ rs) [] = ⊥
AllRead (ok ev ∷ rs) (ev' ∷ evs) = (ev ≡ ev') × AllRead rs evs

-- Whether an extrinsic succeeded, by the events of its block.
abbrev pub is_of : Option ℕ → ℕ → Bool
is_of none n = false
is_of (some m) n = m == n

abbrev pub has_succeeded : List BlockEvent → ℕ → Bool
has_succeeded [] xt = false
has_succeeded (ev ∷ evs) xt = (is_success ev && is_of ev.extrinsic xt) || has_succeeded evs xt

abbrev stake_of : Deposit → StakeAdded
stake_of d = record {
  coldkey = d.coldkey;
  hotkey = d.hotkey;
  tao = d.tao_value;
  alpha = d.alpha;
  netuid = d.netuid;
}

-- A deposit that stands for an event: a stake of a watched account, added in an extrinsic that
-- succeeded, with the fields of the event.
pub record IsCredit (watched : List AccountId) (all : List BlockEvent) (ev : BlockEvent)
    (d : Deposit) : Type 0 where
  pub is_added : is_stake_added ev ≡ true
  pub same_extrinsic : ev.extrinsic ≡ some d.extrinsic_index
  pub same_index : ev.index ≡ d.event_index
  pub same_stake : ev.fields ≡ ok (stake_of d)
  pub is_watched : contains d.coldkey watched ≡ true
  pub succeeded : has_succeeded all d.extrinsic_index ≡ true

-- An event that no deposit stands for.
pub data IsPassed (watched : List AccountId) (all : List BlockEvent) (ev : BlockEvent)
    : Type 0 where
  other_event : is_stake_added ev ≡ false → IsPassed watched all ev
  no_extrinsic : ev.extrinsic ≡ none → IsPassed watched all ev
  not_watched :
      (stake : StakeAdded)
      → ev.fields ≡ ok stake
      → contains stake.coldkey watched ≡ false
      → IsPassed watched all ev
  failed_extrinsic :
      (xt : ℕ) → ev.extrinsic ≡ some xt → has_succeeded all xt ≡ false → IsPassed watched all ev

-- The deposits stand for the credited events, one for one and in their order.
pub data Lists (watched : List AccountId) (all : List BlockEvent)
    : List BlockEvent → List Deposit → Type 0 where
  no_event : Lists watched all [] []
  credit :
      (ev : BlockEvent) (d : Deposit) (evs : List BlockEvent) (ds : List Deposit)
      → IsCredit watched all ev d
      → Lists watched all evs ds
      → Lists watched all (ev ∷ evs) (d ∷ ds)
  pass :
      (ev : BlockEvent) (evs : List BlockEvent) (ds : List Deposit)
      → IsPassed watched all ev
      → Lists watched all evs ds
      → Lists watched all (ev ∷ evs) ds

-- A deposit dated by its block, with the prices of its subnet there.
pub record IsPriced (number : ℕ) (at : PricedBlock) (d : Deposit) : Type 0 where
  pub same_number : d.block_number ≡ number
  pub same_hash : d.block_hash ≡ at.block_hash
  pub has_spot : at.spot_price d.netuid ≡ ok d.spot_price
  pub has_moving : at.moving_price d.netuid ≡ ok d.moving_price

-- The deposits of a block for watched accounts: its events have all been read, the deposits stand for
-- those that credit a watched account, one for one and in order, and each has the block and its prices.
pub record IsListing (at_block : ℕ → Result PricedBlock) (number : ℕ) (watched : List AccountId)
    (out : BlockDeposits) : Type 0 where
  pub at : PricedBlock
  pub results : List (Result BlockEvent)
  pub events : List BlockEvent
  pub is_read : at_block number ≡ ok at
  pub has_events : at.events ≡ ok results
  pub all_read : AllRead results events
  pub same_block : (out.number ≡ number) × (out.block_hash ≡ at.block_hash)
  pub lists : Lists watched events events out.deposits
  pub priced : All (IsPriced number at) out.deposits
