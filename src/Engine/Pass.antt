-- ===== src/Engine/Pass.antt =====
-- The safety of a whole pass (`tick`) and of the calls of clients (src/engine.rs).
use buyback.Base.{ℕ, ◌+◌, String, false, List, [], ◌∷◌, Option, none, ◌≡◌, refl, if◌then◌else◌}
use buyback.Chain.{AccountId}
use buyback.State.{PaymentState, PaymentRecord, SealedSecret}
use buyback.Error.{Result, ok, err}
use buyback.Keys.{Ss58}
use buyback.Store.Fence.{IsFenced}
use buyback.Store.History.{History, History-IsFenced, opened}
use buyback.Engine.Env.{Engine, World, Broadcast, Async, ◌>>=◌, attempt, pure, draw, store_list}
use buyback.Engine.Trace.{
  IsQuiet, IsCareful, Sends, History-append, quiet_rules, bind-IsQuiet, if-IsCareful,
  IsQuiet-IsCareful, attempt-IsCareful,
}
use buyback.Engine.Safety.{RunsOthers, effect_rules, store_insert-IsQuiet}
use buyback.Engine.StepSafety.{step-IsCareful}
use buyback.Engine.Steps.{Positions}
use buyback.Engine.Driver.{step}
use buyback.Engine.Tick.{is_idle, advanced, tick_all, read_positions, tick}
use buyback.Engine.Requests.{
  CreatePayment, insert_checked, payment_record, sweep_record, create_payment, create_sweep_job,
  retry, force_sweep,
}

-- Any number of broadcasts, each journaled.
pub data SendsEach ⦃codec : Ss58⦄ (before : List Broadcast) : List Broadcast → Type 0 where
  nothing : SendsEach before before
  one_more :
      {mid after : List Broadcast} → SendsEach before mid → Sends mid after → SendsEach before after

-- The world of `w` has grown into that of `w'` by operations of the store and journaled broadcasts.
pub record Grows ⦃codec : Ss58⦄ (w w' : World) : Type 0 where
  pub history : History w.db w'.db
  pub sends : SendsEach w.sent w'.sent

module _ ⦃codec : Ss58⦄ where
  pub Grows-careful :
      {A : Type 0} {m : Async A} {v : World} (w : World) → IsCareful m → Grows v w → Grows v (m w).1
  Grows-careful w c g = record {
    history = History-append g.history (c.history w);
    sends = one_more g.sends (c.sends w);
  }

  after_bind :
      {A B : Type 0} (v : World) (f : A → Async B) (r : Result A) (w : World)
      → Grows v w
      → ((a : A) → Grows v (f a w).1)
      → Grows v (◌>>=◌ (λ _. (r, w)) f w).1
  unfolding ◌>>=◌
  after_bind v f (ok a) w g k = k a
  after_bind v f (err x) w g k = g

  Grows-bind :
      {A B : Type 0} (v : World) {m : Async A} (f : A → Async B) (w : World)
      → IsCareful m
      → ((a : A) (w' : World) → Grows v w' → Grows v (f a w').1)
      → Grows v w
      → Grows v ((m >>= f) w).1
  unfolding ◌>>=◌
  Grows-bind v {m = m} f w c k g =
      let g' = Grows-careful w c g in after_bind v f (m w).0 (m w).1 g' (λ a. k a (m w).1 g')

module _ ⦃codec : Ss58⦄ (e : Engine) (others : RunsOthers e) where
  visit-IsCareful :
      (t : ℕ) (positions : Positions) (r : PaymentRecord)
      → IsCareful (if is_idle t r then pure (ok false) else attempt (step e r positions))
  visit-IsCareful t positions r =
      if-IsCareful (is_idle t r) (IsQuiet-IsCareful (search quiet_rules))
        (attempt-IsCareful (step-IsCareful e others r positions))

  Grows-tick_all :
      (v : World) (t : ℕ) (positions : Positions) (count : ℕ) (rs : List PaymentRecord) (w : World)
      → Grows v w
      → Grows v (tick_all e t positions count rs w).1
  unfolding tick_all
  Grows-tick_all v t positions count [] w g =
      Grows-careful {m = pure count} w (IsQuiet-IsCareful (search quiet_rules)) g
  Grows-tick_all v t positions count (r ∷ rs) w g =
      Grows-bind v _ w (visit-IsCareful t positions r)
        (λ answer w'. Grows-tick_all v t positions (advanced answer + count) rs w') g

  read_positions-IsQuiet : (accounts : List AccountId) → IsQuiet (read_positions e accounts)
  unfolding read_positions
  read_positions-IsQuiet [] = search quiet_rules
  read_positions-IsQuiet (a ∷ more) = search effect_rules

  store_list-IsQuiet : (states : List PaymentState) → IsQuiet (store_list e states)
  unfolding store_list
  store_list-IsQuiet states = record { history = λ w. others w.awaits w.db; sent = λ w. refl }

  pub Grows-tick : (v w : World) → Grows v w → Grows v (tick e w).1
  unfolding tick
  Grows-tick v w g =
      Grows-bind v _ w (IsQuiet-IsCareful (store_list-IsQuiet _))
        (λ recs w1. Grows-bind v _ w1 (IsQuiet-IsCareful (search effect_rules)) (λ t w2.
          Grows-bind v _ w2 (IsQuiet-IsCareful (read_positions-IsQuiet _))
            (λ positions w3. Grows-tick_all v t positions 0 recs w3)))
        g

-- One pass over all open payments, whatever the chain answers and while other processes use the
-- same store by its operations only: each broadcast is called for with its journal in the tables, and
-- unresolved journals that were all fenced by reservations of their signers stay so.
pub tick_safe :
    ⦃codec : Ss58⦄ (e : Engine) (w : World)
    → RunsOthers e
    → IsFenced w.db
    → SendsEach w.sent (tick e w).1.sent × IsFenced (tick e w).1.db
tick_safe e w others f =
    let g = Grows-tick e others w w (record { history = opened; sends = nothing }) in
    (g.sends, History-IsFenced g.history f)

module _ ⦃codec : Ss58⦄ (e : Engine) (others : RunsOthers e) where
  draw-IsQuiet : {A : Type 0} (question : ℕ → Result A) → IsQuiet (draw e question)
  unfolding draw
  draw-IsQuiet question = record { history = λ w. opened; sent = λ w. refl }

  insert_checked-IsQuiet :
      (rec : PaymentRecord) → rec.pending ≡ none → IsQuiet (insert_checked e rec)
  unfolding insert_checked
  insert_checked-IsQuiet rec n =
      bind-IsQuiet (search quiet_rules)
        (λ _. bind-IsQuiet (search quiet_rules) (λ _. store_insert-IsQuiet e others rec n))

  payment_record-IsQuiet :
      (opts : CreatePayment) (id address : String) (sealed : SealedSecret) (t : ℕ)
      → IsQuiet (insert_checked e (payment_record e opts id address sealed t))
  unfolding payment_record
  payment_record-IsQuiet opts id address sealed t = insert_checked-IsQuiet _ refl

  sweep_record-IsQuiet :
      (id path address : String) (metadata : Option String) (sealed : SealedSecret) (t : ℕ)
      → IsQuiet (insert_checked e (sweep_record e id path address metadata sealed t))
  unfolding sweep_record
  sweep_record-IsQuiet id path address metadata sealed t = insert_checked-IsQuiet _ refl

  pub create_payment-IsQuiet : (opts : CreatePayment) → IsQuiet (create_payment e opts)
  unfolding create_payment
  create_payment-IsQuiet opts = search (effect_rules, draw-IsQuiet, payment_record-IsQuiet) depth 12

  create_sweep_job-IsQuiet :
      (id path expected : String) (metadata : Option String)
      → IsQuiet (create_sweep_job e id path expected metadata)
  unfolding create_sweep_job
  create_sweep_job-IsQuiet id path expected metadata =
      search (effect_rules, draw-IsQuiet, sweep_record-IsQuiet) depth 12

  pub retry-IsQuiet : (id : String) → IsQuiet (retry e id)
  unfolding retry
  retry-IsQuiet id = search effect_rules depth 12

  pub force_sweep-IsQuiet : (id : String) → IsQuiet (force_sweep e id)
  unfolding force_sweep
  force_sweep-IsQuiet id = search effect_rules depth 12

-- What clients and operators may call.
pub data Request : Type 0 where
  create : CreatePayment → Request
  sweep_job : (id derivation_path expected_address : String) → Option String → Request
  resume : (id : String) → Request
  force : (id : String) → Request

-- A request run for its effect on the world.
pub serve : ⦃codec : Ss58⦄ → Engine → Request → World → World
serve e (create opts) w = (create_payment e opts w).1
serve e (sweep_job id path expected metadata) w = (create_sweep_job e id path expected metadata w).1
serve e (resume id) w = (retry e id w).1
serve e (force id) w = (force_sweep e id w).1

-- No request of a client or operator broadcasts anything, and each keeps unresolved journals
-- fenced, if other processes use the store by its operations only.
pub serve_safe :
    ⦃codec : Ss58⦄ (e : Engine) (q : Request) (w : World)
    → RunsOthers e
    → IsFenced w.db
    → ((serve e q w).sent ≡ w.sent) × IsFenced (serve e q w).db
unfolding serve
serve_safe e (create opts) w others f =
    let c = create_payment-IsQuiet e others opts in (c.sent w, History-IsFenced (c.history w) f)
serve_safe e (sweep_job id path expected metadata) w others f =
    let c = create_sweep_job-IsQuiet e others id path expected metadata in
    (c.sent w, History-IsFenced (c.history w) f)
serve_safe e (resume id) w others f =
    let c = retry-IsQuiet e others id in (c.sent w, History-IsFenced (c.history w) f)
serve_safe e (force id) w others f =
    let c = force_sweep-IsQuiet e others id in (c.sent w, History-IsFenced (c.history w) f)
