-- ===== src/Engine/Env.antt =====
-- What a step of src/engine.rs works on. A step is a function of the world: the shared tables, the
-- number of awaits so far, and what has left the process. An await first lets the other processes
-- that share the store run (`meanwhile`), and its answer may depend on how many awaits came before,
-- so answers vary freely in time. `EngineRpc` and `TransactionRpc` are traits, and stay an interface.
use buyback.Base.{ℕ, suc, String, Bool, List, ◌∷◌, Option}
use buyback.Config.{AutoBuyback}
use buyback.Chain.{
  AccountId, ChainCall, PendingTx, PreparedTx, FinalizedTx, PendingOutcome, StakePosition,
}
use buyback.State.{PaymentState, PaymentRecord, PaymentStatus, BuybackBudget, SealedSecret}
use buyback.Error.{Error, Result, ok, err}
use buyback.Store.{Db}
use buyback.Store.Sqlite

-- `Config` of src/config.rs
pub record Config : Type 0 where
  pub url : String
  pub netuid : ℕ
  pub min_alpha : ℕ
  pub min_tao : Option ℕ
  pub expiry_secs : ℕ
  pub treasury_hotkey : AccountId
  pub sweep_dust : ℕ
  pub consolidate : Bool
  pub return_dust : Bool
  pub fee_margin_bps : ℕ
  pub fee_reserve : ℕ
  pub buyback_netuid : ℕ
  pub slippage_bps : ℕ
  pub allow_partial : Bool
  pub auto : AutoBuyback
  pub buyback_budget : Option BuybackBudget
  pub max_attempts : ℕ
  pub webhook_url : Option String

-- The traits `EngineRpc` and `TransactionRpc`, the clock, fresh uuids, wallets and webhooks: each is
-- asked with the number of awaits before it. A `Keypair` stands as the account of its public key.
-- `Chain::broadcast` is its first await, which may fail, and the submission with its answer.
pub record Rpc : Type 0 where
  pub now : ℕ → ℕ
  pub uuid : ℕ → String
  pub genesis_hash : String
  pub free_balance : ℕ → AccountId → Result ℕ
  pub account : ℕ → AccountId → Result (ℕ × ℕ)
  pub alpha_on : ℕ → AccountId → ℕ → Result (ℕ × List StakePosition)
  pub alpha_of : ℕ → (hotkey coldkey : AccountId) → ℕ → Result ℕ
  pub estimate_fee : ℕ → ChainCall → AccountId → Result ℕ
  pub existential_deposit : ℕ → Result ℕ
  pub alpha_price : ℕ → ℕ → Result ℕ
  pub hotkey_owner : ℕ → AccountId → Result (Option AccountId)
  pub stake_positions_many : ℕ → List AccountId → Result (List (AccountId × List StakePosition))
  pub prepare : ℕ → ChainCall → AccountId → Result PreparedTx
  pub at_current_block : ℕ → Result (Unit {0})
  pub submit_and_watch : ℕ → PreparedTx → Result FinalizedTx
  pub find_pending : ℕ → PendingTx → Result PendingOutcome
  pub new_wallet : ℕ → Result AccountId
  pub seal : ℕ → AccountId → (aad : String) → Result SealedSecret
  pub unseal : SealedSecret → (aad : String) → Result AccountId
  pub seed : Option (String → Result AccountId)
  pub post_webhook : Option (ℕ → String → PaymentStatus → Result (Unit {0}))
  pub meanwhile : ℕ → Db → Db

-- `Engine`
pub record Engine : Type 0 where
  pub rpc : Rpc
  pub treasury : AccountId
  pub cfg : Config

-- A broadcast, with the job that it is for, the tables when `broadcast` was called, and the tables at the
-- moment that the bytes leave.
pub record Broadcast : Type 0 where
  pub job : String
  pub tx : PreparedTx
  pub called : Db
  pub stored : Db

pub record World : Type 0 where
  pub db : Db
  pub awaits : ℕ
  pub sent : List Broadcast
  pub announced : List PaymentStatus

-- An `async fn` that returns a `Result`.
abbrev pub Async : Type 0 → Type 0
Async A = World → Result A × World

infixl 5 ◌>>=◌ ◌>>◌
unfoldable pub ◌>>=◌ : {A B : Type 0} → Async A → (A → Async B) → Async B
◌>>=◌ m f w = let (r, w') = m w in elim r [ ok a ↦ f a w' | err e ↦ (err e, w') ]

abbrev pub ◌>>◌ : {A B : Type 0} → Async A → Async B → Async B
m >> k = m >>= λ _. k

module _ {A : Type 0} where
  unfoldable pub lift : Result A → Async A
  lift r w = (r, w)

  unfoldable pub pure : A → Async A
  pure a w = (ok a, w)

  unfoldable pub throw : Error → Async A
  throw e w = (err e, w)

  -- `match m.await { … }`: the error as a value.
  unfoldable pub attempt : Async A → Async (Result A)
  attempt m w = let (r, w') = m w in (ok r, w')

module _ (e : Engine) where
  -- The other processes run, and the await is counted.
  unfoldable pub tick_world : World → World
  tick_world w = record w { db = e.rpc.meanwhile w.awaits w.db; awaits = suc w.awaits }

  -- An await of the transport.
  unfoldable pub ask : {A : Type 0} → (ℕ → Result A) → Async A
  unfolding tick_world
  ask question w = (question w.awaits, tick_world w)

  -- A call that is no await: randomness, and keys that are in memory.
  unfoldable pub draw : {A : Type 0} → (ℕ → Result A) → Async A
  draw question w = (question w.awaits, w)

  -- `now()`
  unfoldable pub now : Async ℕ
  now w = (ok (e.rpc.now w.awaits), w)

  -- An operation of the store that answers with a value and new tables.
  abbrev pub commit : {A : Type 0} → World → Result (A × Db) → Result A × World
  commit w (ok (a, db)) = (ok a, record w { db = db })
  commit w (err x) = (err x, w)

  abbrev pub commit_db : World → Result Db → Result (Unit {0}) × World
  commit_db w (ok db) = (ok tt, record w { db = db })
  commit_db w (err x) = (err x, w)

  -- `store.update`
  unfoldable pub store_update : PaymentRecord → Async PaymentRecord
  unfolding tick_world
  store_update rec w0 =
      let w = tick_world w0 in commit w (Sqlite.update w.db rec (e.rpc.now w.awaits))

  -- `store.get`
  unfoldable pub store_get : String → Async (Option PaymentRecord)
  unfolding tick_world
  store_get id w0 = let w = tick_world w0 in (ok (Sqlite.get w.db id), w)

  -- `store.list`
  unfoldable pub store_list : List PaymentState → Async (List PaymentRecord)
  unfolding tick_world
  store_list states w0 = let w = tick_world w0 in (ok (Sqlite.list w.db states), w)

  -- `store.insert`
  unfoldable pub store_insert : PaymentRecord → Async (Unit {0})
  unfolding tick_world
  store_insert rec w0 = let w = tick_world w0 in commit_db w (Sqlite.insert w.db rec)

  -- `store.reserve_signer_for_record`
  unfoldable pub store_reserve : String → PaymentRecord → Async String
  unfolding tick_world
  store_reserve signer rec w0 =
      let w = tick_world w0 in
      commit w (Sqlite.reserve_signer_for_record w.db signer rec (e.rpc.uuid w.awaits))

  -- `store.cancel_preparation`
  unfoldable pub store_cancel : (signer job token : String) → Async (Unit {0})
  unfolding tick_world
  store_cancel signer job token w0 =
      let w = tick_world w0 in commit_db w (Sqlite.cancel_preparation w.db signer job token)

  -- The rest of `rpc.broadcast`, from `submit_and_watch` on: the bytes leave at once, and the answer
  -- comes later.
  unfoldable pub submit_and_watch : String → (called : Db) → PreparedTx → Async FinalizedTx
  unfolding ask
  submit_and_watch job called tx w =
      ask (λ n. e.rpc.submit_and_watch n tx)
        (record w {
          sent = (record { job = job; tx = tx; called = called; stored = w.db }) ∷ w.sent;
        })

  -- `rpc.broadcast` for a job: the current block is awaited before the bytes leave.
  unfoldable pub broadcast : String → PreparedTx → Async FinalizedTx
  unfolding ask submit_and_watch
  broadcast job tx w = (ask (λ n. e.rpc.at_current_block n) >>= λ _. submit_and_watch job w.db tx) w

-- `self.events.send`
unfoldable pub announce : PaymentStatus → Async (Unit {0})
announce st w = (ok tt, record w { announced = st ∷ w.announced })
