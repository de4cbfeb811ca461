-- ===== src/Engine/Startup.antt =====
-- `ensure_treasury_hotkey` of src/engine.rs: the check of the treasury's hotkey before a run.
use buyback.Base.{Option, some, none}
use buyback.Chain.{AccountId}
use buyback.Error.{Error, Result, ok, err}
use buyback.Engine.Env.{Engine, Async, ◌>>=◌, lift, ask}

-- A hotkey of another coldkey is only logged.
abbrev check_association : Option AccountId → Result (Unit {0})
check_association (some owner) = ok tt
check_association none =
    err (
      Error.config
        "treasury hotkey is not associated; provision it before starting signing workers")

module _ (e : Engine) where
  -- `ensure_treasury_hotkey`
  unfoldable pub ensure_treasury_hotkey : Async (Unit {0})
  ensure_treasury_hotkey = do
    owner ← ask e (λ n. e.rpc.hotkey_owner n e.cfg.treasury_hotkey)
    lift (check_association owner)
