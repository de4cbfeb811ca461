-- ===== src/Engine/Defaults.antt =====
-- `Config::new` of src/config.rs: the settings of an engine, but for the URL, the subnet and the hotkey.
use buyback.Base.{ℕ, String, none, true, false}
use buyback.Chain.{AccountId}
use buyback.Config.{AutoBuyback}
use buyback.Units.{rao_per_tao}
use buyback.Engine.Env.{Config}

-- `Config::new`
unfoldable pub new_config : (url : String) (netuid : ℕ) (treasury_hotkey : AccountId) → Config
new_config url netuid treasury_hotkey = record {
  url = url;
  netuid = netuid;
  min_alpha = rao_per_tao;
  min_tao = none;
  expiry_secs = 86_400;
  treasury_hotkey = treasury_hotkey;
  sweep_dust = 1_000_000;
  consolidate = true;
  return_dust = true;
  fee_margin_bps = 5_000;
  fee_reserve = 100_000_000;
  buyback_netuid = 100;
  slippage_bps = 100;
  allow_partial = false;
  auto = AutoBuyback.off;
  buyback_budget = none;
  max_attempts = 8;
  webhook_url = none;
}
