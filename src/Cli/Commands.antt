-- ===== src/Cli/Commands.antt =====
-- `main` of src/bin/buyback.rs: what each command does, from its parsed arguments on. The connection, files,
-- the environment and random bytes are outside: the record `Station` has what each of them returns. The JSON
-- that is printed stands as the value that it is made of.
use buyback.Base.{
  ℕ, ◌+◌, ◌*◌, String, List, [], ◌∷◌, Option, some, none, Bool, true, false, ltb, length, take,
  push_str,
}
use buyback.Chain.{AccountId, StakePosition}
use buyback.Chain.Client.{View, stake_positions}
use buyback.Chain.Endpoints.{url, from_str}
use buyback.Chain.Metadata.{Metadata, verify_metadata}
use buyback.Cli.{
  R, done, failed, ◌>>=◌, ◌>>◌, Boxed, boxed, refuse_if, required, Common, Host, make_engine,
}
use buyback.Engine.Env.{Engine, World, Async, ask, pure, tick_world}
use buyback.Engine.Env
use buyback.Engine.Buyback.{spendable}
use buyback.Engine.Requests.{CreatePayment, create_payment, get_status, retry, force_sweep}
use buyback.Engine.Run.{Blocks, run_rounds}
use buyback.Engine.Startup.{ensure_treasury_hotkey}
use buyback.Error.{Error, Result, ok, err}
use buyback.Keys.{Ss58, ss58}
use buyback.Keys.Keyring.{Bytes, Sealing, to_hex}
use buyback.Keys.Treasury.{Files, seal_treasury}
use buyback.Recovery.{LegacyManifest, RecoveryReport}
use buyback.Recovery.Archive.{Archive}
use buyback.Recovery.Verify.{dry_run}
use buyback.State.{PaymentRequest, PaymentStatus}
use buyback.Store.Recover.{RecoveryDb, recover_legacy}
use buyback.Store.Sqlite.{get}
use buyback.Units.Amount.{format_amount}

-- `Cmd`
pub data Cmd : Type 0 where
  gen_master_key : Cmd
  seal_to : (master_key_var treasury_uri_var out : String) → Cmd
  check_metadata : (network : String) → Cmd
  recover : (manifest database archive : String) (apply : Bool) → Cmd
  create : Common → (metadata callback_url : Option String) → Cmd
  show_status : Common → (id : String) → Cmd
  resume : Common → (id : String) → Cmd
  force : Common → (id : String) → Cmd
  run : Common → (listen : Option String) → Cmd
  buy : Common → (amount then_what : String) → Cmd
  balances : Common → Cmd

-- What a command prints or leaves.
pub data Output : Type 0 where
  lines : List String → Output
  keystore : (out text : String) (account : AccountId) → Output
  recovered : RecoveryReport → RecoveryDb → Output
  request : PaymentRequest → Output
  status : PaymentStatus → Output
  funds : (treasury free_tao spendable_tao : String) (stake : List (String × ℕ × String)) → Output
  stopped : Output

pub record Station : Type 0 where
  pub host : Host
  pub random : Bytes
  pub nonce : Bytes
  pub now : ℕ
  pub files : Files
  pub create_new : (out text : String) → R (Unit {0})
  pub open_file : (path : String) → R Bytes
  pub parse_manifest : Bytes → R LegacyManifest
  pub open_database : (path : String) → (apply : Bool) → Result RecoveryDb
  pub archive : (url : String) → Result Archive
  pub metadata : (url : String) → Result Metadata
  pub view : ℕ → Result View
  pub json_or_text : String → String
  pub listen : (address : String) → R (Unit {0})
  pub subscriptions : List (Result Blocks)

abbrev disabled : Error
disabled =
    Error.config
      "standalone buyback disabled; use a durable payment/sweep job with an explicit buyback budget"

abbrev found_record {ℓ} : {A : Type ℓ} → Option A → (A → R Output) → R Output
found_record none rest = failed (Boxed.message "legacy job not found")
found_record (some r) rest = rest r

abbrev pub bind_to : Station → Option String → R (Unit {0})
bind_to st none = done tt
bind_to st (some address) = st.listen address

module _ ⦃codec : Ss58⦄ ⦃sealing : Sealing⦄ (st : Station) where
  -- `GenMasterKey`
  abbrev new_key : R Output
  new_key = done (lines (to_hex st.random ∷ []))

  -- `SealTreasury`
  unfoldable pub seal_command : (master_key_var treasury_uri_var out : String) → R Output
  seal_command master_key_var treasury_uri_var out = do
    master ← boxed (st.host.master_key master_key_var)
    uri ← required (st.files.env treasury_uri_var) (push_str treasury_uri_var " not set")
    (account, text) ← boxed (seal_treasury st.files master st.nonce uri)
    st.create_new out text
    done (keystore out text account)

  -- `VerifyMetadata`
  unfoldable pub metadata_command : String → R Output
  metadata_command network = do
    net ← boxed (from_str network)
    boxed (st.host.connect (url net))
    evidence ← boxed (verify_metadata (st.metadata (url net)))
    done (lines evidence)

  -- The recovery itself, or its rehearsal.
  abbrev recover_or_check :
      RecoveryDb
      → Archive
      → LegacyManifest
      → (apply : Bool) → (rehearsal : Result RecoveryReport) → R Output
  recover_or_check db archive m true rehearsal = do
    (report, db') ← boxed (recover_legacy db archive m st.now)
    done (recovered report db')
  recover_or_check db archive m false rehearsal = do
    report ← boxed rehearsal
    done (recovered report db)

  -- `RecoverLegacy`
  unfoldable pub recover_command : (manifest database archive : String) → (apply : Bool) → R Output
  recover_command manifest database archive apply = do
    file ← st.open_file manifest
    let bytes = take (4 * 1024 * 1024 + 1) file
    refuse_if (ltb (4 * 1024 * 1024) (length bytes)) "manifest too large"
    m ← st.parse_manifest bytes
    db ← boxed (st.open_database database apply)
    found_record (get db.tables m.job) (λ r. do
      chain ← boxed (st.archive archive)
      recover_or_check db chain m apply (dry_run chain r m))

  -- `engine(&c).await?`, and what follows it.
  abbrev pub with_engine : Common → (Engine → World → R Output × World) → World → R Output × World
  with_engine c rest w = elim (make_engine st.host c) [
    | failed x ↦ (failed x, w)
    | done e ↦ rest e w
  ]

  -- `print(&call.await?)?`
  abbrev pub printed : {A : Type 0} → (A → Output) → Result A × World → R Output × World
  printed show (r, w) = (boxed r >>= λ a. done (show a), w)

  -- `metadata.map(|m| …)`
  abbrev pub opts_of : (metadata callback_url : Option String) → CreatePayment
  opts_of metadata callback_url = record {
    min_alpha = none;
    expiry_secs = none;
    metadata = elim metadata [ none ↦ none | some m ↦ some (st.json_or_text m) ];
    callback_url = callback_url;
  }

  -- The listener of `Run`, and then the loop.
  abbrev pub listen_and_run :
      Engine → (listen : Option String) → Result (Unit {0}) × World → R Output × World
  listen_and_run e listen (err x, w) = (failed (Boxed.of_error x), w)
  listen_and_run e listen (ok u, w) = elim (bind_to st listen) [
    | failed x ↦ (failed x, w)
    | done u ↦ (done stopped, run_rounds e st.subscriptions w)
  ]

  -- What follows the check of the metadata.
  abbrev pub after_metadata :
      Engine
      → (listen : Option String) → (checked : Result (List String)) → World
      → R Output × World
  after_metadata e listen (err x) w = (failed (Boxed.of_error x), w)
  after_metadata e listen (ok evidence) w = listen_and_run e listen (ensure_treasury_hotkey e w)

  -- `Run`
  unfoldable pub run_command : Engine → (listen : Option String) → World → R Output × World
  unfolding tick_world
  run_command e listen w =
      after_metadata e listen (verify_metadata (st.metadata e.cfg.url)) (tick_world e w)

  abbrev stake_lines : List StakePosition → List (String × ℕ × String)
  stake_lines [] = []
  stake_lines (p ∷ ps) = (ss58 p.hotkey, p.netuid, format_amount p.alpha) ∷ stake_lines ps

  -- `Balances`
  unfoldable pub read_funds : Engine → Async Output
  read_funds e = Env.◌>>=◌ (ask e (λ n. e.rpc.free_balance n e.treasury)) λ free.
      Env.◌>>=◌ (ask e (λ n. stake_positions (st.view n) e.treasury)) λ positions.
        Env.◌>>=◌ (spendable e) λ left. pure (
          funds (ss58 e.treasury) (format_amount free) (format_amount left) (stake_lines positions))

  -- `main`
  unfoldable pub main : Cmd → World → R Output × World
  unfolding seal_command metadata_command recover_command run_command read_funds
  main gen_master_key w = (new_key, w)
  main (seal_to master_key_var treasury_uri_var out) w =
      (seal_command master_key_var treasury_uri_var out, w)
  main (check_metadata network) w = (metadata_command network, w)
  main (recover manifest database archive apply) w =
      (recover_command manifest database archive apply, w)
  main (create c metadata callback_url) w =
      with_engine c (λ e w'. printed request (create_payment e (opts_of metadata callback_url) w'))
        w
  main (show_status c id) w = with_engine c (λ e w'. printed status (get_status e id w')) w
  main (resume c id) w = with_engine c (λ e w'. printed status (retry e id w')) w
  main (force c id) w = with_engine c (λ e w'. printed status (force_sweep e id w')) w
  main (run c listen) w = with_engine c (λ e w'. run_command e listen w') w
  main (buy c amount then_what) w = (failed (Boxed.of_error disabled), w)
  main (balances c) w = with_engine c (λ e w'. printed (λ o. o) (read_funds e w')) w
