-- ===== src/Chain/DepositTests.antt =====
-- A block with deposits and a stored price (src/chain.rs), and the theorems on them.
use buyback.Base.{ℕ, ◌^◌, ◌≡◌, refl, String, [], ◌∷◌, none, some, String-discrete}
use buyback.Chain.{pallet}
use buyback.Error.{Error, Result, ok, err}
use buyback.Chain.Deposits.{
  StakeAdded, BlockEvent, PricedBlock, Deposit, BlockDeposits, contains, find_hits, read_hashes,
  hash_of, successes, price_of, look_up, list_deposits, deposits_of, block_deposits,
  deposits_in_block,
}
use buyback.Chain.Credits.{IsListing}
use buyback.Chain.Listing.{deposits_in_block-IsListing}
use buyback.Chain.Prices.{pos, Value, nil, cons, find_bits, i96f32_to_rao, i96f32_to_rao-floor}

abbrev stake : ℕ → StakeAdded
stake coldkey = record { coldkey = coldkey; hotkey = 4; tao = 50; alpha = 7; netuid = 1 }

-- The `index`-th event of the block, of extrinsic `xt`.
abbrev added : (index xt coldkey : ℕ) → Result BlockEvent
added index xt coldkey = ok (record {
  pallet_name = pallet;
  event_name = "StakeAdded";
  extrinsic = some xt;
  index = index;
  fields = ok (stake coldkey);
})

abbrev system : (name : String) → (index xt : ℕ) → Result BlockEvent
system name index xt = ok (record {
  pallet_name = "System";
  event_name = name;
  extrinsic = some xt;
  index = index;
  fields = err (Error.chain "no fields");
})

-- Account 3 is watched and gets two stakes, one in an extrinsic that fails; account 9 gets one.
abbrev block : PricedBlock
block = record {
  block_hash = "b";
  events = ok (
      added 0 1 3
      ∷ system "ExtrinsicSuccess" 1 1
      ∷ added 2 2 3
      ∷ system "ExtrinsicFailed" 3 2
      ∷ added 4 3 9
      ∷ system "ExtrinsicSuccess" 5 3
      ∷ []);
  extrinsics = ok (ok (record { index = 1; hash = "h1"; address_bytes = none }) ∷ []);
  spot_price = λ netuid. ok 20;
  moving_price = λ netuid. ok 19;
}

abbrev only_deposit : Deposit
only_deposit = record {
  block_number = 12;
  block_hash = "b";
  extrinsic_index = 1;
  event_index = 0;
  extrinsic_hash = "h1";
  from = none;
  coldkey = 3;
  hotkey = 4;
  netuid = 1;
  alpha = 7;
  tao_value = 50;
  spot_price = 20;
  moving_price = 19;
}

abbrev found : BlockDeposits
found = record { number = 12; block_hash = "b"; deposits = only_deposit ∷ [] }

one_is_found : deposits_in_block (λ n. ok block) 12 (3 ∷ 8 ∷ []) ≡ ok found
unfolding deposits_in_block block_deposits find_hits contains deposits_of read_hashes successes
    list_deposits look_up price_of hash_of String-discrete
one_is_found = refl

deposits_in_block-IsListing_example : IsListing (λ n. ok block) 12 (3 ∷ 8 ∷ []) found
deposits_in_block-IsListing_example =
    deposits_in_block-IsListing (λ n. ok block) 12 3 (8 ∷ []) found one_is_found

-- Half a TAO for an alpha, in a composite.
abbrev half : Value
half = Value.composite (cons (Value.u128 (2 ^ 31)) nil)

half_is_found : find_bits half ≡ some (pos (2 ^ 31))
unfolding find_bits
half_is_found = refl

i96f32_to_rao-floor_example : i96f32_to_rao half ≡ ok 500_000_000
i96f32_to_rao-floor_example = i96f32_to_rao-floor half (2 ^ 31) half_is_found
