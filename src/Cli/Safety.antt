-- ===== src/Cli/Safety.antt =====
-- What is sure of an engine that the command line of src/bin/buyback.rs builds.
use buyback.Base.{
  ℕ, String, some, none, Bool, true, false, not, ◌&&◌, ◌=?◌, string_eq, ◌≡◌, refl, sym, ap, ◌∙◌,
  ◌⊎◌, inl, inr, arith, is_none,
}
use buyback.Chain.Endpoints.{Network, url, from_str}
use buyback.Cli.{
  R, done, failed, ◌>>=◌, boxed, refuse_if, Common, Host, destroy, is_finney, key_source,
  parse_optional, required, base_config, auto_config, make_engine,
}
use buyback.Config.{AutoBuyback}
use buyback.Engine.Defaults.{new_config}
use buyback.Engine.Env.{Engine, Config, Rpc, World, store_insert}
use buyback.Engine.Env
use buyback.Engine.Requests.{CreatePayment, payment_record, new_record, insert_checked, is_on}
use buyback.Error.{Result, ok, err}
use buyback.Keys.{Ss58, parse_ss58}
use buyback.State.{BuybackBudget, PaymentRecord, SealedSecret}
use buyback.State.Budget.{validate}
use buyback.Store.{validate_budget}
use buyback.Units.Amount.{parse_amount}

done_bind :
    {A B : Type 0} (r : R A) (f : A → R B) (b : B)
    → (r >>= f) ≡ done b
    → (a : A) × (r ≡ done a) × (f a ≡ done b)
done_bind (done a) f b h = (a, refl, h)
done_bind (failed e) f b h = absurd cc

done_same : {A : Type 0} {a b : A} → done a ≡ done b → a ≡ b
done_same h = cc

done_boxed : {A : Type 0} (r : Result A) (a : A) → boxed r ≡ done a → r ≡ ok a
done_boxed (ok x) a h = cc
done_boxed (err e) a h = absurd cc

done_refuse : (c : Bool) (text : String) (u : Unit {0}) → refuse_if c text ≡ done u → c ≡ false
done_refuse true text u h = absurd cc
done_refuse false text u h = refl

guard_of : (a b : Bool) → (a && not b) ≡ false → (b ≡ true) ⊎ (a ≡ false)
guard_of true true h = inl refl
guard_of true false h = absurd cc
guard_of false b h = inr refl

-- The settings are without a buyback, or their budget is valid.
pub data IsFunded ⦃codec : Ss58⦄ : Config → Type 0 where
  unfunded : {cfg : Config} → cfg.auto ≡ AutoBuyback.off → cfg.buyback_budget ≡ none → IsFunded cfg
  funded :
      {cfg : Config} (b : BuybackBudget)
      → cfg.buyback_budget ≡ some b
      → validate b ≡ ok tt
      → IsFunded cfg

module _ ⦃codec : Ss58⦄ where
  base_config-lem :
      (c : Common) (net : Network) (cfg : Config)
      → base_config c net ≡ done cfg
      → (cfg.url ≡ url net) × (cfg.auto ≡ AutoBuyback.off) × (cfg.buyback_budget ≡ none)
  unfolding base_config new_config
  base_config-lem c net cfg h =
      let (hotkey, _, h1) = done_bind (boxed (parse_ss58 c.treasury_hotkey)) _ _ h in
      let (min_alpha, _, h2) = done_bind (boxed (parse_amount c.min_alpha)) _ _ h1 in
      let (min_tao, _, h3) = done_bind (parse_optional c.min_tao) _ _ h2 in
      let (fee_reserve, _, h4) = done_bind (boxed (parse_amount c.fee_reserve)) _ _ h3 in
      let same = done_same h4 in
      (
        sym (ap (λ x. x.url) same),
        sym (ap (λ x. x.auto) same),
        sym (ap (λ x. x.buyback_budget) same),
      )

  auto_config-IsFunded :
      (c : Common) (base cfg : Config) (is_off : Bool)
      → base.auto ≡ AutoBuyback.off
      → base.buyback_budget ≡ none
      → auto_config c base is_off ≡ done cfg
      → IsFunded cfg × (cfg.url ≡ base.url)
  unfolding auto_config
  auto_config-IsFunded c base cfg true a b h =
      let same : cfg ≡ base = sym (done_same h) in
      (
        IsFunded.unfunded (ap (λ x. x.auto) same ∙ a) (ap (λ x. x.buyback_budget) same ∙ b),
        ap (λ x. x.url) same,
      )
  auto_config-IsFunded c base cfg false a b h =
      let (amount, _, h1) = done_bind (boxed (parse_amount c.auto_amount)) _ _ h in
      let (way, _, h2) = done_bind (destroy c.auto) _ _ h1 in
      let (source, _, h3) = done_bind (required c.auto_source _) _ _ h2 in
      let (u, valid, h4) = done_bind (boxed (validate _)) _ _ h3 in
      let same = done_same h4 in
      (
        IsFunded.funded _ (sym (ap (λ x. x.buyback_budget) same)) (done_boxed _ _ valid),
        sym (ap (λ x. x.url) same),
      )

  -- The checks that a new job's budget must pass.
  pub budget_checked : (cfg : Config) → IsFunded cfg → validate_budget cfg.buyback_budget ≡ ok tt
  budget_checked cfg (IsFunded.unfunded a b) = rw b refl
  budget_checked cfg (IsFunded.funded x b v) = rw b v

  auto_checked :
      (cfg : Config) → IsFunded cfg → (is_on cfg.auto && is_none cfg.buyback_budget) ≡ false
  auto_checked cfg (IsFunded.unfunded a b) = rw a refl
  auto_checked cfg (IsFunded.funded x b v) = ground (arith, b)

  insert_checked-store_insert :
      (e : Engine) (rec : PaymentRecord) (w : World)
      → IsFunded e.cfg
      → rec.buyback_budget ≡ e.cfg.buyback_budget
      → insert_checked e rec w ≡ store_insert e rec w
  unfolding insert_checked Env.◌>>=◌ Env.lift
  insert_checked-store_insert e rec w f same =
      rw (same, auto_checked e.cfg f, budget_checked e.cfg f) refl

  -- An engine of the command line.
  pub record IsAllowed (host : Host) (c : Common) (e : Engine) : Type 0 where
    pub net : Network
    pub is_named : from_str c.network ≡ ok net
    pub is_guarded : (c.allow_mainnet ≡ true) ⊎ (is_finney net ≡ false)
    pub is_connected : host.connect (url net) ≡ ok e.rpc
    pub same_url : e.cfg.url ≡ url net
    pub takes_jobs :
        (opts : CreatePayment) (id address : String) (sealed : SealedSecret) (t : ℕ) (w : World)
        → insert_checked e (payment_record e opts id address sealed t) w
          ≡ store_insert e (payment_record e opts id address sealed t) w

  -- An engine that the command line builds is connected to the network that was named, which is the
  -- preset of the main network only if that was allowed; and the job checks on the budget never refuse
  -- a payment that is made with it: the budget is valid, or there is none and nothing is bought.
  pub make_engine-IsAllowed :
      (host : Host) (c : Common) (e : Engine) → make_engine host c ≡ done e → IsAllowed host c e
  unfolding make_engine payment_record new_record
  make_engine-IsAllowed host c e h =
      let (net, named, h1) = done_bind (boxed (from_str c.network)) _ _ h in
      let (u, guarded, h2) =
        done_bind (refuse_if (is_finney net && not c.allow_mainnet) _) _ _ h1 in
      let (master, _, h3) = done_bind (boxed (host.master_key c.master_key_var)) _ _ h2 in
      let (treasury, _, h4) = done_bind (boxed (host.load (key_source c) master)) _ _ h3 in
      let (base, based, h5) = done_bind (base_config c net) _ _ h4 in
      let (cfg, configured, h6) = done_bind (auto_config c base (c.auto =? "off")) _ _ h5 in
      let (rpc, connected, h7) = done_bind (boxed (host.connect (url net))) _ _ h6 in
      let (u', _, h8) = done_bind (boxed (host.open_tables c.database)) _ _ h7 in
      let (base_url, base_auto, unset) = base_config-lem c net base based in
      let (sound, stays) = auto_config-IsFunded c base cfg _ base_auto unset configured in
      let made : record { rpc = rpc; treasury = treasury; cfg = cfg } ≡ e = done_same h8 in
      let not_refused = done_refuse _ _ u guarded in
      let made_url : cfg.url ≡ url net = stays ∙ base_url in
      rw (← made) (record {
        net = net;
        is_named = done_boxed _ _ named;
        is_guarded = guard_of _ _ not_refused;
        is_connected = done_boxed _ _ connected;
        same_url = made_url;
        takes_jobs = λ opts id address sealed t w.
            insert_checked-store_insert (record { rpc = rpc; treasury = treasury; cfg = cfg })
              (payment_record (record { rpc = rpc; treasury = treasury; cfg = cfg }) opts id address
                sealed t)
              w sound refl;
      })
