-- ===== src/Fixtures/Legacy.antt =====
-- Concrete data for the tests of the recovery: a payment that was funded and swept, its manifest and an
-- archive of eighteen blocks.
use buyback.Base.{ℕ, String, true, false, List, [], ◌∷◌, ◌==◌, none, some, if◌then◌else◌}
use buyback.Chain.{ChainCall, pallet, amount}
use buyback.Chain.Events.{Event}
use buyback.State.{PaymentRecord, PaymentState}
use buyback.Error.{Error, Result, ok, err}
use buyback.Store.Sqlite.{new_row}
use buyback.Store.Recover.{RecoveryDb}
use buyback.Recovery.{LegacyManifest, LegacyTransaction}
use buyback.Recovery.Archive.{ArchivedExtrinsic, Archive}
use buyback.Fixtures.{payment}

abbrev pub funding_call : ChainCall
funding_call = ChainCall.transfer_tao 3 123

abbrev pub sweep_call : ChainCall
sweep_call = ChainCall.transfer_stake 1 4 1 7

abbrev pub first_transaction : LegacyTransaction
first_transaction = record {
  block = 10;
  index = 0;
  signer = "5";
  nonce = 0;
  receipt = record {
    action = "transfer_keep_alive";
    tx_hash = "h1";
    block_hash = "b";
    amount = 123;
  };
  call = funding_call;
}

abbrev pub second_transaction : LegacyTransaction
second_transaction = record {
  block = 12;
  index = 2;
  signer = "555";
  nonce = 0;
  receipt = record { action = "transfer_stake"; tx_hash = "h2"; block_hash = "b"; amount = 7 };
  call = sweep_call;
}

abbrev pub manifest : LegacyManifest
manifest = record {
  job = "a";
  version = 3;
  genesis_hash = "g";
  treasury = "5";
  treasury_hotkey = "55";
  consolidate = false;
  return_dust = false;
  budget = none;
  first_block = 10;
  stopped_at = 20;
  maximum_mortality = 5;
  operator_attestation = "audit 17, all emitters stopped";
  all_old_emitters_stopped_no_immortal_signatures = true;
  transactions = first_transaction ∷ second_transaction ∷ [];
}

abbrev pub legacy_payment : PaymentRecord
legacy_payment = record payment {
  state = PaymentState.swept;
  version = 3;
  funded_tao = 123;
  swept_alpha = 7;
  swept_positions = ("5555", 7) ∷ [];
  txs = first_transaction.receipt ∷ second_transaction.receipt ∷ [];
  buyback_budget = none;
  auto_required = none;
  identity = none;
}

abbrev pub event : String → String → ℕ → Result Event
event p n amount' = ok (record {
  pallet_name = p;
  event_name = n;
  tao_and_alpha = err (Error.chain "no fields");
  destroyed_amount = ok amount';
  moved_tao = ok amount';
  transfer_amount = ok amount';
})

abbrev zeros : List ℕ → List ℕ
zeros bytes =
    0 ∷ 0 ∷ 0 ∷ 0 ∷ 0 ∷ 0 ∷ 0 ∷ 0 ∷ 0 ∷ 0 ∷ 0 ∷ 0 ∷ 0 ∷ 0 ∷ 0 ∷ 0 ∷ 0 ∷ 0 ∷ 0 ∷ 0 ∷ 0 ∷ 0 ∷ 0 ∷ 0
    ∷ 0 ∷ 0 ∷ 0 ∷ 0 ∷ 0 ∷ 0 ∷ 0 ∷ bytes

-- An extrinsic that the account `who` signed.
abbrev pub signed :
    (who index : ℕ) → String → ChainCall → List (Result Event) → Result ArchivedExtrinsic
signed who index hash call events = ok (record {
  address_bytes = some (0 ∷ zeros (who ∷ []));
  index = index;
  nonce = some 0;
  hash = hash;
  call_data_bytes = amount call ∷ [];
  events = ok events;
})

abbrev pub timestamp : Result ArchivedExtrinsic
timestamp = ok (record {
  address_bytes = none;
  index = 0;
  nonce = none;
  hash = "t";
  call_data_bytes = [];
  events = ok [];
})

abbrev pub fund_events : List (Result Event)
fund_events = event "Balances" "Transfer" 123 ∷ event "System" "ExtrinsicSuccess" 0 ∷ []

abbrev pub sweep_events : List (Result Event)
sweep_events = event pallet "StakeTransferred" 6 ∷ event "System" "ExtrinsicSuccess" 0 ∷ []

abbrev pub extrinsics_of : ℕ → List (Result ArchivedExtrinsic)
extrinsics_of n =
    if n == 10
    then signed 1 0 "h1" funding_call fund_events ∷ []
    else if n == 12
    then timestamp ∷ signed 9 1 "x" sweep_call [] ∷ signed 3 2 "h2" sweep_call sweep_events ∷ []
    else []

abbrev pub archive : Archive
archive = record {
  genesis_hash = "g";
  finalized_head = ok (27, "top");
  at_block = λ n. ok (record {
    block_hash = "b";
    extrinsics = ok (extrinsics_of n);
    call_data = λ call. ok (amount call ∷ []);
  });
  nonce_at = λ n who. ok 0;
  block_hash_at = λ n. ok (some "top");
}

abbrev pub legacy_db : RecoveryDb
legacy_db = record {
  tables = record { payments = new_row legacy_payment ∷ []; reservations = [] };
  recoveries = [];
}
