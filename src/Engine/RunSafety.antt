-- ===== src/Engine/RunSafety.antt =====
-- The safety of the loop `run` of src/engine.rs, for as long as it runs.
use buyback.Base.{List, [], ◌∷◌}
use buyback.Error.{Result, ok, err}
use buyback.Keys.{Ss58}
use buyback.Store.Fence.{IsFenced}
use buyback.Store.History.{History-IsFenced, opened}
use buyback.Engine.Env.{Engine, World, tick_world}
use buyback.Engine.Trace.{History-append}
use buyback.Engine.Safety.{RunsOthers}
use buyback.Engine.Pass.{SendsEach, nothing, Grows, Grows-tick}
use buyback.Engine.Run.{Blocks, follow, run_round, run_rounds}

module _ ⦃codec : Ss58⦄ (e : Engine) (others : RunsOthers e) (v : World) where
  pub Grows-others : (w : World) → Grows v w → Grows v (tick_world e w)
  unfolding tick_world
  Grows-others w g = record {
    history = History-append g.history (others w.awaits w.db);
    sends = g.sends;
  }

  Grows-follow : (blocks : Blocks) (w : World) → Grows v w → Grows v (follow e blocks w)
  unfolding follow
  Grows-follow [] w g = Grows-others w g
  Grows-follow (ok n ∷ blocks) w g =
      Grows-follow blocks _ (Grows-tick e others v (tick_world e w) (Grows-others w g))
  Grows-follow (err x ∷ blocks) w g = Grows-others w g

  Grows-round : (s : Result Blocks) (w : World) → Grows v w → Grows v (run_round e s w)
  unfolding run_round
  Grows-round (ok blocks) w g = Grows-others _ (Grows-follow blocks _ (Grows-others w g))
  Grows-round (err x) w g = Grows-others _ (Grows-others w g)

  pub Grows-rounds :
      (ss : List (Result Blocks)) (w : World) → Grows v w → Grows v (run_rounds e ss w)
  unfolding run_rounds
  Grows-rounds [] w g = g
  Grows-rounds (s ∷ ss) w g = Grows-rounds ss _ (Grows-round s w g)

-- The engine's loop over the finalized blocks, for any number of subscriptions, whatever blocks and errors
-- they bring and whatever the chain answers, while other processes use the same store by its operations only:
-- each broadcast is called for with its journal in the tables, which is there still when the bytes leave unless an
-- update of the job has closed it since, and unresolved journals that were all fenced by reservations of their
-- signers stay so.
pub run_safe :
    ⦃codec : Ss58⦄ (e : Engine) (ss : List (Result Blocks)) (w : World)
    → RunsOthers e
    → IsFenced w.db
    → SendsEach w.sent (run_rounds e ss w).sent × IsFenced (run_rounds e ss w).db
run_safe e ss w others f =
    let g = Grows-rounds e others w ss w (record { history = opened; sends = nothing }) in
    (g.sends, History-IsFenced g.history f)
