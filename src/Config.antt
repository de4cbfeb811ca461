-- ===== src/Config.antt =====
-- src/config.rs: what a buyback does with the alpha that it buys, and its automatic mode.
-- The engine's `Config` is in Engine.Env, since it holds a budget of src/state.rs.
use buyback.Base.{ℕ, Eq}

-- `Destroy`
pub data Destroy : Type 0 where
  keep burn recycle : Destroy

-- `AutoAmount`; amounts are in rao, `payment_value_bps` in basis points.
pub data AutoAmount : Type 0 where
  whole : AutoAmount
  fixed : ℕ → AutoAmount
  payment_value_bps : ℕ → AutoAmount

-- `AutoBuyback`
pub data AutoBuyback : Type 0 where
  off : AutoBuyback
  on : Destroy → AutoAmount → AutoBuyback

unfoldable pub Destroy-discrete : Discrete Destroy
Destroy-discrete = hlevel

instance abbrev pub destroy_eq : Eq Destroy
destroy_eq = record { discrete = Destroy-discrete }
