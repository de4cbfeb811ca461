-- ===== src/Cli/Broadcasts.antt =====
-- Which commands of src/bin/buyback.rs may send transactions, and what they have checked before.
use buyback.Base.{String, List, Option, ◌≡◌, ◌⊎◌}
use buyback.Chain.Metadata.{verify_metadata}
use buyback.Cli.{done, Common, Host, make_engine}
use buyback.Cli.Commands.{Cmd, run, Station}
use buyback.Cli.Safety.{IsAllowed}
use buyback.Engine.Env.{Engine, World, tick_world}
use buyback.Engine.Pass.{Grows}
use buyback.Engine.Safety.{RunsOthers}
use buyback.Engine.Startup.{ensure_treasury_hotkey}
use buyback.Error.{ok}
use buyback.Keys.{Ss58}
use buyback.Keys.Keyring.{Sealing}

-- The clients that a host connects to let other processes use the store by its operations only.
abbrev pub ConnectsOthers : ⦃codec : Ss58⦄ → Host → Type 0
ConnectsOthers host = (c : Common) (e : Engine) → make_engine host c ≡ done e → RunsOthers e

module _ ⦃codec : Ss58⦄ ⦃sealing : Sealing⦄ (st : Station) where
  -- The engine that a `run` command has come to drive.
  pub record IsDriving (cmd : Cmd) (w : World) : Type 0 where
    pub options : Common
    pub address : Option String
    pub is_run : cmd ≡ run options address
    pub engine : Engine
    pub is_allowed : IsAllowed st.host options engine
    pub evidence : List String
    pub is_checked : verify_metadata (st.metadata engine.cfg.url) ≡ ok evidence
    pub is_ready : (ensure_treasury_hotkey engine (tick_world engine w)).0 ≡ ok tt

  -- Nothing is sent, or the loop was driven.
  abbrev pub SendsByRun : Cmd → World → World → Type 0
  SendsByRun cmd w w' = (w'.sent ≡ w.sent) ⊎ IsDriving cmd w

  -- The world after a command.
  record Ends (cmd : Cmd) (w w' : World) : Type 0 where
    pub grows : Grows w w'
    pub by_run : SendsByRun cmd w w'
