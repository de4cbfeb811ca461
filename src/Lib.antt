-- ===== src/Lib.antt =====
-- Verification library of the buyback crate: a payment engine that receives alpha stake or TAO
-- on fresh wallets, sweeps it to a treasury, and spends a fixed budget per job on buying back
-- and destroying alpha.
--
-- The parts and their files:
-- * src/state.rs, the state of a payment: State (types, `can_transition`, `status`),
--   State/Budget (`BuybackBudget::validate`), State/Moves (`transition`, `record_failure`).
--   Proofs: State/Progress, State/Failures.
-- * src/store.rs, the durable store: Store (the tables, `migrated_policy`), Store/Sqlite (one
--   function per method of `SqliteStore`, on the two tables as lists of rows), Store/File
--   (`FileStore`), Store/Any (`open_store`, and each method of a boxed store), Store/Recover
--   (`recover_legacy`). Store/Ledger is what the tables promise, with no tables. Proofs: Store/Rows,
--   Store/Update, Store/Fence, Store/History, Store/Swap, Store/Refines (the tables against the
--   ledger), Store/Mirror, Store/Lists, Store/Shows and Store/Writes (the two stores side by side),
--   Store/Recovers (a recovery taken apart), Store/Versions, Store/Journals (what becomes of an open
--   journal), Store/Once.
-- * src/units.rs, amounts and prices: Units, and Units/Amount (`parse_amount`, `format_amount`).
--   Proofs: Units/Bounds, Units/Digits, Units/RoundTrip.
-- * src/engine.rs, the engine: Engine/Env (state and effects), Engine/Apply (`Engine::apply`),
--   Engine/Journal (`send_journaled`, `reconcile_journaled`), Engine/Checks and Engine/Buyback
--   (`step_auto_buyback` and its checks), Engine/Steps (`step_pending` and helpers), Engine/Sweep
--   (`step_detected`, `step_funded`, `step_swept`), Engine/Driver (`step`, `notify`), Engine/Tick
--   (`tick`), Engine/Run (`run`), Engine/Requests (`create_payment`, `create_sweep_job`, `status`, `retry`,
--   `force_sweep`), Engine/Startup (`ensure_treasury_hotkey`). Proofs: Engine/Trace, Engine/Ends,
--   Engine/Safety, Engine/Careful, Engine/StepSafety, Engine/Pass, Engine/RunSafety (effects), Engine/Held (when a step
--   holds back), Engine/Consolidation (the loop of `step_swept`), Engine/Accounts, Engine/Buys,
--   Engine/Receipts (receipts and budgets).
-- * src/http.rs, the handlers of requests: Engine/Http, on Engine/Requests. Proofs:
--   Engine/Roundtrip.
-- * src/recovery.rs, the import of a payment of an earlier version: Recovery (the manifest),
--   Recovery/Manifest (`validate_manifest`), Recovery/Archive (`Chain::verify_legacy_archive`),
--   Recovery/Replay and Recovery/Import (`replay`), Recovery/Verify (`dry_run`, `verify`). Proofs:
--   Recovery/Audit, Recovery/Coverage, Recovery/Totals, Recovery/Evidence.
-- * src/chain.rs, calls, receipts and outcomes: Chain; what a node's answers are made into:
--   Chain/Finalized (`find_pending`), Chain/Events (`EventSummary::from_events`), Chain/Deposits
--   (`deposits_in_block`), Chain/Prices (`i96f32_to_rao`), Chain/Client (the reads of an account,
--   `prepare`, `broadcast`), Chain/Reads (heads, prices, fees), Chain/Payload (the arguments of each
--   call), Chain/Metadata (`verify_metadata`), Chain/Endpoints (`Network`, `connect_any`,
--   `redact_url`). Proofs: Chain/Absence, Chain/Summary, Chain/Credits, Chain/Listing,
--   Chain/Confirmed, Chain/Queries, Chain/Runtime, Chain/Connection, Chain/Redaction.
-- * src/keys.rs, addresses and sealed secrets: Keys (SS58), Keys/Keyring (`MasterKey`, `Keyring`),
--   Keys/Wallet (`PaymentWallet`), Keys/Derivation (`DerivationSeed`), Keys/Treasury
--   (`TreasuryKeySource`). Proofs: Keys/Rotation, Keys/Keystore, Keys/Paths.
-- * src/webhook.rs, the posting of settlements: Webhook.
-- * src/config.rs, the settings: Config, Engine/Env and Engine/Defaults (`Config::new`). src/error.rs,
--   errors: Error.
-- * src/bin/buyback.rs, the command line: Cli (the engine that is built from the options),
--   Cli/Commands (`main`). Proofs: Cli/Safety, Cli/Broadcasts.
-- * Base has what all share: names of the standard library, Boolean tests, machine words, texts,
--   a sort by a key.
--   Fixtures has concrete data for the modules called Tests.
--
-- How they interact: `tick` lists the open payments and gives each to `step`, which runs the
-- step of its state. A step that moves money journals the transaction (a record with `pending`,
-- stored under a reservation of the signer), broadcasts it, and applies its receipt; a payment
-- with an unresolved journal is reconciled with the finalized chain before anything else.
--
-- The model:
-- * A method of the engine is a function from the world to a result and a new world. The world
--   has the tables of the store, the number of awaits so far, and lists of the broadcasts and
--   announcements made. Each await lets the other processes that share the store change the
--   tables; `RunsOthers` says that they too use the operations of the store only, recoveries of
--   legacy payments included. Between two awaits nothing else runs. `broadcast` is two awaits: the
--   current block, which may fail, and then the submission; a broadcast is noted with the tables at
--   its call and the tables when its bytes leave.
-- * The traits `EngineRpc` and `TransactionRpc`, the clock, uuids, wallets, sealing and webhooks
--   are the record `Rpc` of Engine/Env. Every answer may depend on the number of awaits before it,
--   and may be an error. SS58 text is the interface `Ss58` of Keys, with decoding a left inverse
--   of encoding.
-- * Integers are natural numbers. Where the source adds machine words with `+` the sum is taken
--   modulo the width, as a release build does; checked and saturating operations are written as
--   such.
-- * A transaction of the database is one step, and an error leaves the tables as they were. A
--   record is stored as the value that its JSON text stands for. A constraint of the schema is a
--   test in `insert` and `reserve`.
-- * The loop of `step_swept` runs on fuel, the number of swept positions: a round that goes on
--   moves `consolidated` one on, and past the last position the loop ends (Engine/Consolidation
--   relates it to the loop of the source). The loop over chunks of `stake_positions_many` has
--   as many rounds as there are accounts, and each round takes at least one. The digits of a number
--   are written by at most twenty divisions, which is enough for a `u64`.
-- * The archive of src/recovery.rs, the node of src/chain.rs, the cipher, the key derivation and the
--   hexadecimal codec of src/keys.rs are records of what third-party code returns, and each read of
--   a chain may be an error. Of the cipher and the codec it is used that they undo themselves.
--
-- * `Engine::run` and the command `run` have no end of their own: they go through a list of
--   subscriptions, as many as the node serves, each an error or a stream of blocks with its end.
--
-- Not modelled: an engine on a store of files (`--store file:DIR`), whose requests `require_signing`
-- refuses; failures of the database and of the file system; the drawing of random bytes (they
-- are arguments); the routing and the JSON text of the HTTP server, and its start; the treasury
-- lock, which orders tasks of one process; logging, and the exact quoting in error texts; the
-- parsing of arguments, and the JSON text that the command line prints; the tests and examples.
pub mod Base
pub mod Config
pub mod Chain
pub mod Cli
pub mod Webhook
pub mod State
pub mod Error
pub mod Keys
pub mod Store
pub mod Recovery
pub mod Units
pub mod Engine
pub mod Fixtures
