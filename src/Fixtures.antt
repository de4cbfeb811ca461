-- ===== src/Fixtures.antt =====
-- Concrete data for the tests: a codec, a chain that answers, a treasury and a payment.
pub mod Legacy
pub mod Secrets
pub mod Runtime
use buyback.Base.{ℕ, zero, suc, ◌+◌, String, true, false, [], ◌∷◌, none, some, ◌≡◌, refl, ap}
use buyback.Config.{Destroy, AutoBuyback}
use buyback.Chain.{
  Action, ChainCall, TxRef, EventSummary, PendingTx, PendingOutcome, StakePosition, name, amount,
  expected_event,
}
use buyback.State.{BuybackBudget, JobIdentity, SealedSecret, PaymentRecord, pending}
use buyback.Error.{ok}
use buyback.Keys.{Ss58}
use buyback.Store.History.{empty_db}
use buyback.Engine.Env.{Config, Rpc, Engine, World}

-- The account `n` is written with `n` fives.
abbrev pub fives : ℕ → String
fives zero = String.[]
fives (suc n) = String.◌∷◌ "5" (fives n)

abbrev pub size : String → ℕ
size String.[] = 0
size (String.◌∷◌ c s) = suc (size s)

pub size-fives : (n : ℕ) → size (fives n) ≡ n
size-fives zero = refl
size-fives (suc n) = ap suc (size-fives n)

instance abbrev pub codec : Ss58
codec = record {
  encode = fives;
  decode = λ s. some (size s);
  decode_encode = λ a. ap some (size-fives a);
}

-- The treasury is account 1, its hotkey account 2, and the wallet of every payment account 3.
abbrev pub budget : BuybackBudget
budget = record {
  amount_rao = 5_000_000;
  currency = "TAO";
  source = "ops";
  netuid = 100;
  destroy = Destroy.burn;
  hotkey = "55";
}

abbrev pub identity : JobIdentity
identity = record {
  genesis_hash = "g";
  treasury = "5";
  treasury_hotkey = "55";
  consolidate = true;
  return_dust = true;
}

abbrev pub secret : SealedSecret
secret = record { v = 1; nonce = "n"; ct = "c"; kid = none }

abbrev pub payment : PaymentRecord
payment = record {
  id = "a";
  address = "555";
  netuid = 1;
  min_alpha = 1_000_000_000;
  min_tao = none;
  created_at = 0;
  expires_at = 100;
  state = pending;
  version = 0;
  sealed_secret = secret;
  metadata = none;
  callback_url = none;
  detected_alpha = 0;
  detected_tao = 0;
  funded_tao = 0;
  swept_alpha = 0;
  txs = [];
  buyback = none;
  buyback_budget = some budget;
  auto_required = some true;
  identity = some identity;
  attempts = 0;
  next_attempt_at = 0;
  last_error = none;
  failed_from = none;
  pending = none;
  quarantined = none;
  swept_positions = [];
  consolidated = 0;
  dust_returned = false;
  buyback_done = false;
  notified = false;
  updated_at = 0;
  derivation_path = none;
}

abbrev pub journal_of : PendingTx
journal_of = record {
  action = Action.sweep "55";
  reservation = some "t0";
  signer = "555";
  nonce = 0;
  tx_hash = "h";
  birth_block = 10;
  amount = 7;
}

abbrev pub receipt_of : TxRef
receipt_of = record { action = "transfer_stake"; tx_hash = "h"; block_hash = "b"; amount = 7 }

-- The events of a call that succeeds.
abbrev pub events_of : ChainCall → EventSummary
events_of call = record {
  names = expected_event call ∷ [];
  failed = false;
  stake_added = some (amount call, 900);
  alpha_destroyed = some 900;
  stake_moved_tao = none;
  transferred = some (amount call);
}

abbrev pub position : StakePosition
position = record { hotkey = 4; netuid = 1; alpha = 2_000_000_000 }

abbrev pub settings : Config
settings = record {
  url = "ws://localhost";
  netuid = 1;
  min_alpha = 1_000_000_000;
  min_tao = none;
  expiry_secs = 3600;
  treasury_hotkey = 2;
  sweep_dust = 1_000_000;
  consolidate = true;
  return_dust = true;
  fee_margin_bps = 5000;
  fee_reserve = 100_000_000;
  buyback_netuid = 100;
  slippage_bps = 100;
  allow_partial = false;
  auto = AutoBuyback.off;
  buyback_budget = some budget;
  max_attempts = 8;
  webhook_url = none;
}

abbrev pub chain : Rpc
chain = record {
  now = λ n. 1000 + n;
  uuid = λ n. fives n;
  genesis_hash = "g";
  free_balance = λ n who. ok 0;
  account = λ n who. ok (0, 0);
  alpha_on = λ n who netuid. ok (2_000_000_000, position ∷ []);
  alpha_of = λ n hotkey coldkey netuid. ok 0;
  estimate_fee = λ n call who. ok 1000;
  existential_deposit = λ n. ok 500;
  alpha_price = λ n netuid. ok 20_000_000;
  hotkey_owner = λ n hotkey. ok (some 1);
  stake_positions_many = λ n who. ok ((3, position ∷ []) ∷ []);
  prepare = λ n call who. ok (record {
    call = call;
    signer = fives who;
    nonce = 0;
    tx_hash = "h";
    birth_block = 10;
    bytes = [];
  });
  at_current_block = λ n. ok tt;
  submit_and_watch = λ n tx. ok (record {
    tx = record {
      action = name tx.call;
      tx_hash = tx.tx_hash;
      block_hash = "b";
      amount = amount tx.call;
    };
    summary = events_of tx.call;
  });
  find_pending = λ n p. ok PendingOutcome.wait;
  new_wallet = λ n. ok 3;
  seal = λ n who aad. ok secret;
  unseal = λ sealed aad. ok 3;
  seed = some (λ path. ok 3);
  post_webhook = none;
  meanwhile = λ n db. db;
}

abbrev pub engine : Engine
engine = record { rpc = chain; treasury = 1; cfg = settings }

abbrev pub world : World
world = record { db = empty_db; awaits = 0; sent = []; announced = [] }
