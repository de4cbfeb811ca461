-- ===== src/Engine/Run.antt =====
-- `run` of src/engine.rs: the loop that follows the finalized blocks. It has no end of its own, so it is
-- run on what the node serves: a list of subscriptions, each an error or the items of its stream up to its end.
use buyback.Base.{ℕ, List, [], ◌∷◌}
use buyback.Error.{Result, ok, err}
use buyback.Keys.{Ss58}
use buyback.Engine.Env.{Engine, World, tick_world}
use buyback.Engine.Tick.{tick}

-- The stream of block numbers; an item may be an error.
abbrev pub Blocks : Type 0
Blocks = List (Result ℕ)

module _ ⦃codec : Ss58⦄ (e : Engine) where
  -- `while let Some(b) = blocks.next().await`: a pass on each block, whose error is only logged, until the
  -- stream ends or has an error.
  unfoldable pub follow : Blocks → World → World
  unfolding tick_world
  follow [] w = tick_world e w
  follow (ok n ∷ blocks) w = follow blocks (tick e (tick_world e w)).1
  follow (err x ∷ blocks) w = tick_world e w

  -- One round of the `loop`, from its subscription on; the sleep after it is an await.
  unfoldable pub run_round : Result Blocks → World → World
  unfolding follow tick_world
  run_round (ok blocks) w = tick_world e (follow blocks (tick_world e w))
  run_round (err x) w = tick_world e (tick_world e w)

  -- `run`, for as many rounds as there are subscriptions.
  unfoldable pub run_rounds : List (Result Blocks) → World → World
  unfolding run_round
  run_rounds [] w = w
  run_rounds (s ∷ more) w = run_rounds more (run_round s w)
