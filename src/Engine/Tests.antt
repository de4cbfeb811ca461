-- ===== src/Engine/Tests.antt =====
-- Passes of the engine of src/engine.rs over a chain that answers, and the theorems on them.
use buyback.Base.{some, String, List, [], ◌∷◌, ◌≡◌, refl, ℕ_discrete, String-discrete}
use buyback.Chain.{expected_event}
use buyback.State.{
  PaymentRecord, funded, BuybackBudget-discrete, Option-Bool-discrete, JobIdentity-discrete,
}
use buyback.Error.{Error, Result, ok, err}
use buyback.Store.{Db, find_row, has_journal, is_taken, is_owned, set_rows, released}
use buyback.Store.Sqlite.{
  insert, new_row, update, reserve_signer_for_record, check_owner, settle_journal,
  Option-ℕ-discrete,
}
use buyback.Store.Fence.{IsFenced}
use buyback.Store.History.{opened, empty_db, empty-IsFenced, Uses-IsFenced, inserts}
use buyback.Engine.Env
use buyback.Engine.Env.{World, Broadcast, Async}
use buyback.Engine.Apply.{apply}
use buyback.Engine.Buyback.{send}
use buyback.Engine.Journal.{send_journaled, journal, submit}
use buyback.Engine.Steps.{wallet, sweep_floor, next_position}
use buyback.Engine.Sweep.{step_funded}
use buyback.Engine.Trace.{Sends}
use buyback.Engine.Safety.{RunsOthers}
use buyback.Engine.StepSafety.{step-Sends}
use buyback.Engine.Driver.{step}
use buyback.Engine.Held.{step_unresolved}
use buyback.Engine.Run.{Blocks, run_rounds}
use buyback.Engine.RunSafety.{run_safe}
use buyback.Engine.Pass.{SendsEach, resume, serve, serve_safe}
use buyback.Fixtures.{journal_of, payment, engine, world, codec}

-- A payment whose wallet holds its fee, in the store.
abbrev funded_payment : PaymentRecord
funded_payment = record payment { state = funded }

abbrev funded_db : Db
funded_db = record { payments = new_row funded_payment ∷ []; reservations = [] }

abbrev funded_world : World
funded_world = record world { db = funded_db }

insert_funded : insert empty_db funded_payment ≡ ok funded_db
unfolding insert find_row
insert_funded = refl

funded-IsFenced : IsFenced funded_db
funded-IsFenced = Uses-IsFenced (inserts funded_payment refl insert_funded) empty-IsFenced

-- The store is this engine's own.
alone : RunsOthers engine
alone = λ n db. opened

step-Sends_example : Sends [] (step engine funded_payment [] funded_world).1.sent
step-Sends_example = step-Sends engine funded_payment [] funded_world alone

-- A block, an error of the stream and a failed subscription.
abbrev subscriptions : List (Result Blocks)
subscriptions =
    ok (ok 100 ∷ err (Error.chain "connection reset") ∷ ok 101 ∷ [])
    ∷ err (Error.chain "refused")
    ∷ []

run_safe_example :
    SendsEach [] (run_rounds engine subscriptions funded_world).sent
    × IsFenced (run_rounds engine subscriptions funded_world).db
run_safe_example = run_safe engine subscriptions funded_world alone funded-IsFenced

serve_safe_example :
    ((serve engine (resume "a") funded_world).sent ≡ [])
    × IsFenced (serve engine (resume "a") funded_world).db
serve_safe_example = serve_safe engine (resume "a") funded_world alone funded-IsFenced

-- The same payment once its sweep is journaled.
abbrev unresolved : PaymentRecord
unresolved = record funded_payment { pending = some journal_of }

step_unresolved_example : (step engine unresolved [] funded_world).1.sent ≡ []
step_unresolved_example = step_unresolved engine unresolved journal_of [] funded_world alone refl

-- The hashes of the broadcasts.
abbrev hashes : List Broadcast → List String
hashes [] = []
hashes (b ∷ bs) = b.tx.tx_hash ∷ hashes bs

-- The sweep of a funded payment is broadcast.
funded_is_swept : hashes (step engine funded_payment [] funded_world).1.sent ≡ "h" ∷ []
unfolding step Env.◌>>=◌ Env.lift JobIdentity-discrete Option-Bool-discrete BuybackBudget-discrete
    Env.attempt step_funded wallet Env.pure Env.ask sweep_floor next_position send send_journaled
    Env.store_reserve reserve_signer_for_record find_row has_journal is_taken is_owned
    String-discrete ℕ_discrete Option-ℕ-discrete journal Env.tick_world Env.store_update update
    set_rows check_owner settle_journal submit Env.broadcast apply expected_event released
funded_is_swept = refl
