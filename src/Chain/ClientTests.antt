-- ===== src/Chain/ClientTests.antt =====
-- A node that finalizes a burn and holds stake for two accounts (src/chain.rs), and the theorems on the
-- client of it.
use buyback.Base.{
  false, String-discrete, ◌==◌, List, [], ◌∷◌, none, some, ◌≡◌, refl, All, if◌then◌else◌,
}
use buyback.Chain.{
  AccountId, ChainCall, FinalizedTx, PreparedTx, name, amount, expected_event, pallet,
}
use buyback.Chain.Client.{
  View, RawStakeInfo, InBlock, StakeMap, broadcast, succeed, stake_positions_many,
}
use buyback.Chain.Confirmed.{IsConfirmed, broadcast-IsConfirmed}
use buyback.Chain.Events.{Event, from_events, read_events, read_kind, kind_of}
use buyback.Chain.Queries.{Agrees, answers, stake_positions_many-stake_positions}
use buyback.Error.{Error, ok, err}

abbrev undecoded : Error
undecoded = Error.chain "no field"

abbrev burned : Event
burned = record {
  pallet_name = pallet;
  event_name = "AlphaBurned";
  tao_and_alpha = err undecoded;
  destroyed_amount = ok 40;
  moved_tao = err undecoded;
  transfer_amount = err undecoded;
}

abbrev in_block : InBlock
in_block = record { block_hash = "b"; events = some (ok burned ∷ []); error = "" }

-- Account 3 has two entries, one of them empty.
abbrev stakes : AccountId → List RawStakeInfo
stakes who =
    if who == 3
    then record { hotkey = 4; netuid = 1; stake = 7 }
      ∷ record { hotkey = 5; netuid = 1; stake = 0 }
      ∷ []
    else []

abbrev node : View
node = record {
  block_number = 12;
  account = λ who. ok none;
  stake_info = λ who. ok (stakes who);
  stake_infos = λ keys. ok (answers stakes keys);
  owner = λ hotkey. ok 0;
  account_nonce = λ who. ok 2;
  sign = λ call who nonce. ok (record { hash = "h"; bytes = 1 ∷ [] });
  watch = λ bytes. ok in_block;
}

abbrev burn : PreparedTx
burn = record {
  call = ChainCall.burn_alpha 4 1 40;
  signer = "5";
  nonce = 2;
  tx_hash = "h";
  birth_block = 12;
  bytes = 1 ∷ [];
}

abbrev burnt : FinalizedTx
burnt = record {
  tx = record { action = "burn_alpha"; tx_hash = "h"; block_hash = "b"; amount = 40 };
  summary = record {
    names = (pallet, "AlphaBurned") ∷ [];
    failed = false;
    stake_added = none;
    alpha_destroyed = some 40;
    stake_moved_tao = none;
    transferred = none;
  };
}

burn_is_sent : broadcast (ok node) burn ≡ ok burnt
unfolding broadcast succeed from_events read_events read_kind kind_of name amount expected_event
    String-discrete
burn_is_sent = refl

broadcast-IsConfirmed_example : IsConfirmed node burn burnt
broadcast-IsConfirmed_example = broadcast-IsConfirmed node burn burnt burn_is_sent

stake_positions_many-stake_positions_example :
    (out : StakeMap) × (stake_positions_many (ok node) (3 ∷ 9 ∷ []) ≡ ok out)
    × All (Agrees node out) (3 ∷ 9 ∷ [])
stake_positions_many-stake_positions_example =
    stake_positions_many-stake_positions node stakes (λ who. refl) (λ keys. refl) (3 ∷ 9 ∷ [])
