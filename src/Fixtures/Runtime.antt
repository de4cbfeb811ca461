-- ===== src/Fixtures/Runtime.antt =====
-- A runtime with the calls and events of src/chain.rs.
use buyback.Base.{ℕ, String, List, [], ◌∷◌, map, some, none, ◌=?◌, string_eq, if◌then◌else◌}
use buyback.Chain.{pallet}
use buyback.Chain.Metadata.{CallVariant, EventVariant, PalletMetadata, Metadata}

abbrev pub variant : ℕ → List String → CallVariant
variant i names = record { index = i; fields = map some names }

abbrev pub event : String → ℕ → EventVariant
event n i = record { name = n; index = i }

abbrev pub balances : PalletMetadata
balances = record {
  call_variant_by_name = λ n.
      if n =? "transfer_keep_alive"
      then some (variant 3 ("dest" ∷ "value" ∷ []))
      else if n =? "transfer_all"
      then some (variant 4 ("dest" ∷ "keep_alive" ∷ []))
      else none;
  event_variants = some (event "Endowed" 0 ∷ event "Transfer" 2 ∷ []);
}

abbrev pub stake_variant : ℕ → (from to : String) → CallVariant
stake_variant i from to =
    variant i (from ∷ to ∷ "origin_netuid" ∷ "destination_netuid" ∷ "alpha_amount" ∷ [])

abbrev pub subtensor : PalletMetadata
subtensor = record {
  call_variant_by_name = λ n.
      if n =? "transfer_stake"
      then some (stake_variant 86 "destination_coldkey" "hotkey")
      else if n =? "move_stake"
      then some (stake_variant 85 "origin_hotkey" "destination_hotkey")
      else if n =? "add_stake_limit"
      then some (
          variant 88 ("hotkey" ∷ "netuid" ∷ "amount_staked" ∷ "limit_price" ∷ "allow_partial" ∷ []))
      else if n =? "burn_alpha"
      then some (variant 102 ("hotkey" ∷ "amount" ∷ "netuid" ∷ []))
      else if n =? "recycle_alpha"
      then some (variant 101 ("hotkey" ∷ "amount" ∷ "netuid" ∷ []))
      else if n =? "try_associate_hotkey"
      then some (variant 91 ("hotkey" ∷ []))
      else none;
  event_variants = some (
      event "StakeAdded" 5
      ∷ event "StakeTransferred" 6
      ∷ event "StakeMoved" 7
      ∷ event "AlphaRecycled" 8
      ∷ event "AlphaBurned" 9
      ∷ []);
}

abbrev pub runtime : Metadata
runtime = record {
  spec_version = 290;
  pallet_by_name =
      λ n. if n =? "Balances" then some balances else if n =? pallet then some subtensor else none;
}
