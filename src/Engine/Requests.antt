-- ===== src/Engine/Requests.antt =====
-- What a client or an operator calls in src/engine.rs: `create_payment`, `create_sweep_job`, `status`,
-- `retry`, `force_sweep`, and the disabled standalone buybacks.
use buyback.Base.{
  ℕ, ◌+◌, String, Bool, true, false, [], Option, none, some, ◌&&◌, not, is_some, is_none, ◌=?◌,
  string_eq, unwrap_or, u64_max, wrap_u64,
}
use buyback.Config.{Destroy, AutoBuyback}
use buyback.State.{
  PaymentState, PaymentRecord, PaymentRequest, PaymentStatus, BuybackReceipt, SealedSecret, status,
}
use buyback.State.Moves.{transition}
use buyback.Store.{validate_budget}
use buyback.Error.{Error, ok, fail_if, ok_or}
use buyback.Keys.{Ss58, ss58, wallet_aad}
use buyback.Engine.Env.{
  Engine, Async, ◌>>=◌, ◌>>◌, lift, pure, throw, draw, now, store_get, store_insert, store_update,
}
use buyback.Engine.Driver.{job_identity}

-- `CreatePayment`
pub record CreatePayment : Type 0 where
  pub min_alpha : Option ℕ
  pub expiry_secs : Option ℕ
  pub metadata : Option String
  pub callback_url : Option String

abbrev pub or_else {ℓ} : {A : Type ℓ} → Option A → Option A → Option A
or_else (some a) _ = some a
or_else none b = b

abbrev pub is_on : AutoBuyback → Bool
is_on AutoBuyback.off = false
is_on (AutoBuyback.on _ _) = true

module _ ⦃codec : Ss58⦄ (e : Engine) where
  -- The record that both kinds of job begin with.
  unfoldable pub new_record : (id address : String) → SealedSecret → (t : ℕ) → PaymentRecord
  new_record id address sealed t = record {
    id = id;
    address = address;
    netuid = e.cfg.netuid;
    min_alpha = 0;
    min_tao = none;
    created_at = t;
    expires_at = u64_max;
    state = PaymentState.detected;
    version = 0;
    sealed_secret = sealed;
    metadata = none;
    callback_url = none;
    detected_alpha = 0;
    detected_tao = 0;
    funded_tao = 0;
    swept_alpha = 0;
    txs = [];
    buyback = none;
    buyback_budget = e.cfg.buyback_budget;
    auto_required = some (is_some e.cfg.buyback_budget);
    identity = some (job_identity e);
    attempts = 0;
    next_attempt_at = 0;
    last_error = none;
    failed_from = none;
    pending = none;
    quarantined = none;
    swept_positions = [];
    consolidated = 0;
    dust_returned = false;
    buyback_done = false;
    notified = false;
    updated_at = t;
    derivation_path = none;
  }

  -- The record of a payment request.
  unfoldable pub payment_record :
      CreatePayment → (id address : String) → SealedSecret → (t : ℕ) → PaymentRecord
  unfolding new_record
  payment_record opts id address sealed t = record (new_record id address sealed t) {
    min_alpha = unwrap_or opts.min_alpha e.cfg.min_alpha;
    min_tao = e.cfg.min_tao;
    expires_at = wrap_u64 (t + unwrap_or opts.expiry_secs e.cfg.expiry_secs);
    state = PaymentState.pending;
    metadata = opts.metadata;
    callback_url = or_else opts.callback_url e.cfg.webhook_url;
  }

  -- The record of a sweep job.
  unfoldable pub sweep_record :
      (id path address : String) → Option String → SealedSecret → (t : ℕ) → PaymentRecord
  unfolding new_record
  sweep_record id path address metadata sealed t = record (new_record id address sealed t) {
    metadata = metadata;
    derivation_path = some path;
  }

  -- The checks of a new record's budget, and its insertion.
  unfoldable pub insert_checked : PaymentRecord → Async (Unit {0})
  insert_checked rec = do
    lift (
        fail_if (is_on e.cfg.auto && is_none rec.buyback_budget)
          (Error.config "explicit job buyback budget required"))
    lift (validate_budget rec.buyback_budget)
    store_insert e rec

  -- `create_payment`; `require_signing` succeeds on a `SqliteStore`.
  unfoldable pub create_payment : CreatePayment → Async PaymentRequest
  unfolding insert_checked payment_record
  create_payment opts = do
    w ← draw e e.rpc.new_wallet
    id ← draw e (λ n. ok (e.rpc.uuid n))
    let address = ss58 w
    sealed ← draw e (λ n. e.rpc.seal n w (wallet_aad id address))
    t ← now e
    let rec = payment_record opts id address sealed t
    insert_checked rec
    pure (record {
      id = id;
      address = address;
      netuid = rec.netuid;
      min_alpha = rec.min_alpha;
      min_tao = rec.min_tao;
      expires_at = rec.expires_at;
    })

  -- `create_sweep_job`
  unfoldable pub create_sweep_job :
      (id derivation_path expected_address : String) → Option String → Async PaymentStatus
  unfolding insert_checked sweep_record
  create_sweep_job id derivation_path expected_address metadata = do
    seed ← lift (ok_or e.rpc.seed (Error.config "sweep jobs need a derivation seed"))
    w ← lift (seed derivation_path)
    let address = ss58 w
    lift (
        fail_if (not (address =? expected_address))
          (Error.crypto "derived address does not match the expected one"))
    sealed ← draw e (λ n. e.rpc.seal n w (wallet_aad id address))
    t ← now e
    let rec = sweep_record id derivation_path address metadata sealed t
    insert_checked rec
    pure (status rec)

  -- `status`
  unfoldable pub get_status : String → Async PaymentStatus
  get_status id = do
    found ← store_get e id
    r ← lift (ok_or found (Error.not_found id))
    pure (status r)

  -- The state that `retry` resumes.
  abbrev pub retry_state : Option PaymentState → PaymentState
  retry_state none = PaymentState.detected
  retry_state (some PaymentState.pending) = PaymentState.detected
  retry_state (some s) = s

  -- `retry`
  unfoldable pub retry : String → Async PaymentStatus
  retry id = do
    found ← store_get e id
    r ← lift (ok_or found (Error.not_found id))
    lift (
        fail_if (is_some r.quarantined)
          (Error.store "finalized receipt mismatch requires explicit repair"))
    r' ← lift (transition r (retry_state r.failed_from))
    stored ← store_update e r'
    pure (status stored)

  -- `force_sweep`
  unfoldable pub force_sweep : String → Async PaymentStatus
  force_sweep id = do
    found ← store_get e id
    r ← lift (ok_or found (Error.not_found id))
    r' ← lift (transition r PaymentState.detected)
    stored ← store_update e r'
    pure (status stored)

  -- `buyback_with`, which the other standalone buybacks call.
  unfoldable pub buyback_with : ℕ → Destroy → Async BuybackReceipt
  buyback_with amount_tao destroy = throw (
      Error.config
        "standalone buyback disabled; use a durable payment/sweep job with an explicit buyback budget")
