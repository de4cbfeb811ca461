-- ===== src/Cli.antt =====
-- src/bin/buyback.rs: the engine that the command line builds from its options. The parsing of arguments,
-- the environment, files and the connection are outside: the record `Host` has what each of them
-- returns. Child modules: Commands (`main`), Safety and Broadcasts (proofs), Tests.
pub mod Commands
pub mod Safety
pub mod Broadcasts
mod Tests
use buyback.Base.{
  ℕ, String, Option, some, none, Bool, true, false, not, ◌&&◌, ◌=?◌, string_eq, push_str,
  if◌then◌else◌,
}
use buyback.Chain.{AccountId}
use buyback.Chain.Endpoints.{Network, url, from_str}
use buyback.Config.{Destroy, AutoAmount, AutoBuyback}
use buyback.Engine.Defaults.{new_config}
use buyback.Engine.Env.{Engine, Config, Rpc}
use buyback.Error.{Error, Result, ok, err}
use buyback.Keys.{Ss58, parse_ss58}
use buyback.Keys.Keyring.{Bytes}
use buyback.Keys.Treasury.{TreasuryKeySource}
use buyback.State.{BuybackBudget}
use buyback.State.Budget.{validate}
use buyback.Units.Amount.{parse_amount}

-- A `Box<dyn std::error::Error>`: a text, or an error of the crate.
pub data Boxed : Type 0 where
  message : String → Boxed
  of_error : Error → Boxed

-- `R`
pub data R (A : Type 0) : Type 0 where
  done : A → R A
  failed : Boxed → R A

infixl 5 ◌>>=◌ ◌>>◌
abbrev pub ◌>>=◌ : {A B : Type 0} → R A → (A → R B) → R B
r >>= rest = elim r [ failed e ↦ failed e | done a ↦ rest a ]

abbrev pub ◌>>◌ : {A B : Type 0} → R A → R B → R B
r >> rest = r >>= λ _. rest

-- `?` on a `Result` of the crate.
abbrev pub boxed : {A : Type 0} → Result A → R A
boxed (ok a) = done a
boxed (err e) = failed (Boxed.of_error e)

-- `return Err(message.into())`
abbrev pub refuse_if : Bool → String → R (Unit {0})
refuse_if true text = failed (Boxed.message text)
refuse_if false text = done tt

-- `Common`, for a store that is a database: `database` is the PATH of `--store sqlite:PATH` or `--store PATH`.
-- The engine on a `file:DIR` is not modelled.
pub record Common : Type 0 where
  pub network : String
  pub netuid : ℕ
  pub database : String
  pub master_key_var : String
  pub treasury_uri_var : String
  pub treasury_mnemonic_file : Option String
  pub treasury_keystore : Option String
  pub treasury_hotkey : String
  pub min_alpha : String
  pub min_tao : Option String
  pub expiry_secs : ℕ
  pub buyback_netuid : ℕ
  pub slippage_bps : ℕ
  pub fee_margin_bps : ℕ
  pub fee_reserve : String
  pub auto : String
  pub auto_amount : String
  pub auto_source : Option String
  pub webhook_url : Option String
  pub allow_mainnet : Bool

-- What is read outside: the master key, the treasury's key, the connected client and the database.
pub record Host : Type 0 where
  pub master_key : (var : String) → Result Bytes
  pub load : TreasuryKeySource → (master : Bytes) → Result AccountId
  pub connect : (url : String) → Result Rpc
  pub open_tables : (path : String) → Result (Unit {0})

-- `destroy`
unfoldable pub destroy : String → R Destroy
destroy s =
    if s =? "keep"
    then done Destroy.keep
    else if s =? "burn"
    then done Destroy.burn
    else if s =? "recycle"
    then done Destroy.recycle
    else failed (Boxed.message (push_str "expected keep|burn|recycle, got " s))

-- `net == Network::Finney`
abbrev pub is_finney : Network → Bool
is_finney Network.finney = true
is_finney _ = false

-- Where the treasury's key is.
abbrev pub key_source : Common → TreasuryKeySource
key_source c = elim c.treasury_keystore [
  | some p ↦ TreasuryKeySource.encrypted_keystore p
  | none ↦ elim c.treasury_mnemonic_file [
    | some p ↦ TreasuryKeySource.mnemonic_file p
    | none ↦ TreasuryKeySource.env_uri c.treasury_uri_var
  ]
]

-- An optional amount.
abbrev pub parse_optional : Option String → R (Option ℕ)
parse_optional none = done none
parse_optional (some text) = boxed (parse_amount text) >>= λ amount. done (some amount)

-- `o.ok_or(message)?`
abbrev pub required : Option String → (text : String) → R String
required none text = failed (Boxed.message text)
required (some s) text = done s

module _ ⦃codec : Ss58⦄ where
  -- The settings from the options, but for the automatic buyback.
  unfoldable pub base_config : Common → Network → R Config
  base_config c net = do
    hotkey ← boxed (parse_ss58 c.treasury_hotkey)
    min_alpha ← boxed (parse_amount c.min_alpha)
    min_tao ← parse_optional c.min_tao
    fee_reserve ← boxed (parse_amount c.fee_reserve)
    done (record (new_config (url net) c.netuid hotkey) {
      min_alpha = min_alpha;
      min_tao = min_tao;
      expiry_secs = c.expiry_secs;
      buyback_netuid = c.buyback_netuid;
      slippage_bps = c.slippage_bps;
      fee_margin_bps = c.fee_margin_bps;
      fee_reserve = fee_reserve;
      webhook_url = c.webhook_url;
    })

  -- The automatic buyback, unless it is off.
  unfoldable pub auto_config : Common → Config → (is_off : Bool) → R Config
  auto_config c cfg true = done cfg
  auto_config c cfg false = do
    amount ← boxed (parse_amount c.auto_amount)
    way ← destroy c.auto
    source ← required c.auto_source "--auto-source required for automatic buyback"
    let budget : BuybackBudget = record {
      amount_rao = amount;
      currency = "TAO";
      hotkey = c.treasury_hotkey;
      source = source;
      netuid = c.buyback_netuid;
      destroy = way;
    }
    boxed (validate budget)
    done (record cfg {
      buyback_budget = some budget;
      auto = AutoBuyback.on way (AutoAmount.fixed amount);
    })

  -- `engine`, with a database as its store.
  unfoldable pub make_engine : Host → Common → R Engine
  make_engine host c = do
    net ← boxed (from_str c.network)
    refuse_if (is_finney net && not c.allow_mainnet)
        "refusing to use finney without --allow-mainnet / BUYBACK_ALLOW_MAINNET"
    master ← boxed (host.master_key c.master_key_var)
    treasury ← boxed (host.load (key_source c) master)
    base ← base_config c net
    cfg ← auto_config c base (c.auto =? "off")
    rpc ← boxed (host.connect (url net))
    boxed (host.open_tables c.database)
    done (record { rpc = rpc; treasury = treasury; cfg = cfg })
