-- ===== src/Cli/Tests.antt =====
-- An engine for a local node that burns what it buys (src/bin/buyback.rs), and the theorem on it.
use buyback.Base.{
  [], ◌∷◌, String-discrete, none, some, false, ◌≡◌, refl, trim_start, trim_end, is_whitespace,
  utf8_len, all_chars, split_once, parse_digits,
}
use buyback.Cli.{Boxed, done, failed, Common, Host, destroy, base_config, auto_config, make_engine}
use buyback.Cli.Safety.{IsAllowed, make_engine-IsAllowed}
use buyback.Chain.Endpoints.{url, from_str, starts_with}
use buyback.Config.{Destroy, AutoAmount, AutoBuyback}
use buyback.Engine.Defaults.{new_config}
use buyback.Engine.Env.{Engine}
use buyback.Error.{Error, ok, err}
use buyback.Cli.Commands.{Station, buy, main}
use buyback.Store.History.{History}
use buyback.Fixtures.Runtime.{runtime}
use buyback.Fixtures.Secrets.{sealing}
use buyback.State.Budget.{validate, is_bad_budget}
use buyback.Units.Amount.{parse_amount, pad_right}
use buyback.Fixtures.{chain, codec, world}

abbrev options : Common
options = record {
  network = "local";
  netuid = 1;
  database = "buyback.sqlite";
  master_key_var = "BUYBACK_MASTER_KEY";
  treasury_uri_var = "BUYBACK_TREASURY_URI";
  treasury_mnemonic_file = none;
  treasury_keystore = none;
  treasury_hotkey = "55";
  min_alpha = "1";
  min_tao = some "0.5";
  expiry_secs = 86_400;
  buyback_netuid = 100;
  slippage_bps = 100;
  fee_margin_bps = 5_000;
  fee_reserve = "0.1";
  auto = "burn";
  auto_amount = "2.5";
  auto_source = some "allocation 7";
  webhook_url = none;
  allow_mainnet = false;
}

abbrev host : Host
host = record {
  master_key = λ var. ok [];
  load = λ source master. ok 1;
  connect = λ u. ok chain;
  open_tables = λ path. ok tt;
}

abbrev burning : Engine
burning = record {
  rpc = chain;
  treasury = 1;
  cfg = record (new_config "ws://127.0.0.1:9944" 1 2) {
    min_tao = some 500_000_000;
    buyback_budget = some (record {
      amount_rao = 2_500_000_000;
      currency = "TAO";
      source = "allocation 7";
      netuid = 100;
      destroy = Destroy.burn;
      hotkey = "55";
    });
    auto = AutoBuyback.on Destroy.burn (AutoAmount.fixed 2_500_000_000);
  };
}

burning_is_made : make_engine host options ≡ done burning
unfolding make_engine base_config auto_config new_config destroy url from_str starts_with validate
    is_bad_budget parse_amount pad_right String-discrete trim_start trim_end is_whitespace utf8_len
    all_chars split_once parse_digits
burning_is_made = refl

make_engine-IsAllowed_example : IsAllowed host options burning
make_engine-IsAllowed_example = make_engine-IsAllowed host options burning burning_is_made

-- The guard is on the name of the network, not on its URL.
by_name :
    make_engine host (record options { network = "finney" })
    ≡ failed
        (Boxed.message "refusing to use finney without --allow-mainnet / BUYBACK_ALLOW_MAINNET")
unfolding make_engine from_str String-discrete
by_name = refl

-- A machine on which the engine is run on one block.
abbrev station : Station
station = record {
  host = host;
  random = [];
  nonce = [];
  now = 60;
  files = record {
    env = λ var. none;
    read = λ path. none;
    from_json = λ text. none;
    to_json = λ secret. "{}";
    as_bytes = λ text. [];
    from_utf8 = λ bytes. none;
    from_uri = λ uri. none;
  };
  create_new = λ out text. done tt;
  open_file = λ path. failed (Boxed.message "No such file or directory");
  parse_manifest = λ bytes. failed (Boxed.message "EOF while parsing a value");
  open_database = λ path apply. err (Error.store "unable to open database file");
  archive = λ u. err (Error.chain "refused");
  metadata = λ u. ok runtime;
  view = λ n. err (Error.chain "refused");
  json_or_text = λ text. text;
  listen = λ address. done tt;
  subscriptions = ok (ok 100 ∷ []) ∷ [];
}

-- The standalone purchase is refused.
buy_refused : main station (buy options "all" "burn") world ≡ (
  failed (
      Boxed.of_error (
        Error.config
          "standalone buyback disabled; use a durable payment/sweep job with an explicit buyback budget")),
  world,
)
unfolding main
buy_refused = refl
