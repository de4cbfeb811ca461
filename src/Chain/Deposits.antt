-- ===== src/Chain/Deposits.antt =====
-- `Chain::deposits_in_block` of src/chain.rs: the stakes that one block credits to watched accounts. The
-- client of the node is an interface: each read, and each decoding of an event, may fail. A
-- `BTreeSet`, a `HashSet` and a `HashMap` are lists.
use buyback.Base.{
  ℕ, ◌%◌, ◌^◌, String, List, [], ◌∷◌, Option, none, some, Bool, true, false, ◌&&◌, ◌||◌, ◌=?◌, ◌==◌,
  string_eq, if◌then◌else◌,
}
use buyback.Chain.{AccountId, pallet}
use buyback.Chain.Events.{signer_of}
use buyback.Error.{Result, ok, err, ◌>>=◌}

-- The fields of `StakeAdded`.
pub record StakeAdded : Type 0 where
  pub coldkey : AccountId
  pub hotkey : AccountId
  pub tao : ℕ
  pub alpha : ℕ
  pub netuid : ℕ

-- An event of a block; `extrinsic` is the number in its phase `ApplyExtrinsic`.
pub record BlockEvent : Type 0 where
  pub pallet_name : String
  pub event_name : String
  pub extrinsic : Option ℕ
  pub index : ℕ
  pub fields : Result StakeAdded

pub record SignedExtrinsic : Type 0 where
  pub index : ℕ
  pub hash : String
  pub address_bytes : Option (List ℕ)

-- What the node serves of a block, with the prices of a subnet at it.
pub record PricedBlock : Type 0 where
  pub block_hash : String
  pub events : Result (List (Result BlockEvent))
  pub extrinsics : Result (List (Result SignedExtrinsic))
  pub spot_price : ℕ → Result ℕ
  pub moving_price : ℕ → Result ℕ

-- `Deposit`
pub record Deposit : Type 0 where
  pub block_number : ℕ
  pub block_hash : String
  pub extrinsic_index : ℕ
  pub event_index : ℕ
  pub extrinsic_hash : String
  pub from : Option AccountId
  pub coldkey : AccountId
  pub hotkey : AccountId
  pub netuid : ℕ
  pub alpha : ℕ
  pub tao_value : ℕ
  pub spot_price : ℕ
  pub moving_price : ℕ

-- `BlockDeposits`
pub record BlockDeposits : Type 0 where
  pub number : ℕ
  pub block_hash : String
  pub deposits : List Deposit

-- An entry of `hits`.
pub record Hit : Type 0 where
  pub extrinsic : ℕ
  pub event_index : ℕ
  pub stake : StakeAdded

-- `set.contains(&n)`
unfoldable pub contains : ℕ → List ℕ → Bool
contains n [] = false
contains n (m ∷ ms) = m == n || contains n ms

abbrev pub is_stake_added : BlockEvent → Bool
is_stake_added ev = ev.pallet_name =? pallet && ev.event_name =? "StakeAdded"

abbrev pub is_success : BlockEvent → Bool
is_success ev = ev.pallet_name =? "System" && ev.event_name =? "ExtrinsicSuccess"

abbrev pub push_hit : List AccountId → ℕ → ℕ → StakeAdded → List Hit → List Hit
push_hit watched xt index stake hits =
    if contains stake.coldkey watched
    then record { extrinsic = xt; event_index = index; stake = stake } ∷ hits
    else hits

-- The loop that looks for the stakes of watched accounts.
unfoldable pub find_hits : List AccountId → List (Result BlockEvent) → Result (List Hit)
find_hits watched [] = ok []
find_hits watched (err e ∷ evs) = err e
find_hits watched (ok ev ∷ evs) =
    let later = find_hits watched evs in
    elim (if is_stake_added ev then ev.extrinsic else none) [
      | none ↦ later
      | some xt ↦
          ev.fields >>= (λ stake. later >>= (λ hits. ok (push_hit watched xt ev.index stake hits)))
    ]

-- `hashes`: the hash and the address of each extrinsic, by its index as a `u32`.
abbrev pub Hashes : Type 0
Hashes = List (ℕ × String × Option (List ℕ))

-- The loop that fills it; a later entry of an index is found first.
unfoldable pub read_hashes : Hashes → List (Result SignedExtrinsic) → Result Hashes
read_hashes hashes [] = ok hashes
read_hashes hashes (err e ∷ exts) = err e
read_hashes hashes (ok ext ∷ exts) =
    read_hashes ((ext.index % 2 ^ 32, ext.hash, ext.address_bytes) ∷ hashes) exts

-- `hashes.get(&xt).cloned().unwrap_or_default()`
unfoldable pub hash_of : ℕ → Hashes → String × Option (List ℕ)
hash_of xt [] = ("", none)
hash_of xt ((i, hash, address) ∷ hashes) = if i == xt then (hash, address) else hash_of xt hashes

abbrev pub push_success : Bool → Option ℕ → List ℕ → List ℕ
push_success true (some xt) xts = xt ∷ xts
push_success _ _ xts = xts

-- The loop that collects the extrinsics that succeeded.
unfoldable pub successes : List (Result BlockEvent) → Result (List ℕ)
successes [] = ok []
successes (err e ∷ evs) = err e
successes (ok ev ∷ evs) = do xts ← successes evs; ok (push_success (is_success ev) ev.extrinsic xts)

-- `prices`
abbrev pub Prices : Type 0
Prices = List (ℕ × ℕ × ℕ)

unfoldable pub price_of : ℕ → Prices → Option (ℕ × ℕ)
price_of netuid [] = none
price_of netuid ((n, spot, moving) ∷ prices) =
    if n == netuid then some (spot, moving) else price_of netuid prices

abbrev pub signed_by : Option (List ℕ) → Option AccountId
signed_by none = none
signed_by (some bytes) = signer_of bytes

module _ (number : ℕ) (at : PricedBlock) where
  -- The prices of a subnet, read once.
  unfoldable pub look_up : ℕ → Prices → Result ((ℕ × ℕ) × Prices)
  look_up netuid prices = elim (price_of netuid prices) [
    | some price ↦ ok (price, prices)
    | none ↦ (do
      spot ← at.spot_price netuid
      moving ← at.moving_price netuid
      ok ((spot, moving), (netuid, spot, moving) ∷ prices))
  ]

  abbrev pub deposit_of : Hashes → Hit → ℕ × ℕ → Deposit
  deposit_of hashes hit (spot, moving) =
      let entry = hash_of hit.extrinsic hashes in
      record {
        block_number = number;
        block_hash = at.block_hash;
        extrinsic_index = hit.extrinsic;
        event_index = hit.event_index;
        extrinsic_hash = entry.0;
        from = signed_by entry.1;
        coldkey = hit.stake.coldkey;
        hotkey = hit.stake.hotkey;
        netuid = hit.stake.netuid;
        alpha = hit.stake.alpha;
        tao_value = hit.stake.tao;
        spot_price = spot;
        moving_price = moving;
      }

  -- The loop over the hits.
  unfoldable pub list_deposits : List ℕ → Hashes → Prices → List Hit → Result (List Deposit)
  list_deposits succeeded hashes prices [] = ok []
  list_deposits succeeded hashes prices (hit ∷ hits) = elim (contains hit.extrinsic succeeded) [
    | false ↦ list_deposits succeeded hashes prices hits
    | true ↦ (do
      (price, next) ← look_up hit.stake.netuid prices
      deposits ← list_deposits succeeded hashes next hits
      ok (deposit_of hashes hit price ∷ deposits))
  ]

  -- What follows once there are hits.
  unfoldable pub deposits_of : List (Result BlockEvent) → List Hit → Result (List Deposit)
  deposits_of evs [] = ok []
  deposits_of evs (hit ∷ hits) = do
    exts ← at.extrinsics
    hashes ← read_hashes [] exts
    succeeded ← successes evs
    list_deposits succeeded hashes [] (hit ∷ hits)

  -- The deposits of a block, if some account is watched.
  unfoldable pub block_deposits : List AccountId → Result (List Deposit)
  block_deposits [] = ok []
  block_deposits (account ∷ accounts) = do
    evs ← at.events
    hits ← find_hits (account ∷ accounts) evs
    deposits_of evs hits

-- `deposits_in_block`
unfoldable pub deposits_in_block :
    (ℕ → Result PricedBlock) → (number : ℕ) → (watched : List AccountId) → Result BlockDeposits
deposits_in_block at_block number watched = do
  at ← at_block number
  deposits ← block_deposits number at watched
  ok (record { number = number; block_hash = at.block_hash; deposits = deposits })
