-- ===== src/Engine.antt =====
-- src/engine.rs: the payment engine. Child modules: Env (configuration, transport, the state that a
-- step works on), Apply (what a finalized transaction does to a record), Journal (`send_journaled`,
-- `reconcile_journaled`), Checks, Buyback, Steps, Sweep, Driver, Tick and Run (the steps of a payment),
-- Defaults (`Config::new`), Startup (the check before a run), Requests (what a client calls), Http (its
-- handlers). Proofs: Trace, Ends, Safety, Careful, StepSafety, Pass and RunSafety (effects), Held, Consolidation,
-- Accounts, Buys, Receipts and Roundtrip.
pub mod Env
pub mod Apply
pub mod Journal
pub mod Checks
pub mod Buyback
pub mod Steps
pub mod Sweep
pub mod Driver
pub mod Defaults
pub mod Startup
pub mod Requests
pub mod Http
pub mod Roundtrip
pub mod Tick
pub mod Run
pub mod RunSafety
pub mod Consolidation
pub mod Trace
pub mod Ends
pub mod Safety
pub mod Careful
pub mod StepSafety
pub mod Pass
pub mod Held
pub mod Accounts
pub mod Buys
pub mod Receipts
mod ReceiptTests
mod HttpTests
mod Tests
