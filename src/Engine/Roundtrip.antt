-- ===== src/Engine/Roundtrip.antt =====
-- A payment that is created over HTTP (src/http.rs) can be read back.
use buyback.Base.{◌≢◌, String, Option, some, none, ◌≡◌, refl, sym, ap, ◌∙◌, arith, unwrap_or}
use mathlib.Core.Path.{subst}
use buyback.State.{PaymentState, PaymentRecord, PaymentRequest, PaymentStatus, status}
use buyback.Store.{Db}
use buyback.Store.Sqlite.{get, insert}
use buyback.Store.Update.{insert-find_row}
use buyback.Error.{Error, Result, ok, err}
use buyback.Keys.{Ss58, ss58}
use buyback.Engine.Env.{
  Engine, World, ◌>>=◌, lift, pure, tick_world, commit_db, store_get, store_insert,
}
use buyback.Engine.Ends.{Ends, ends_bind, ends_map}
use buyback.Engine.Requests.{
  CreatePayment, create_payment, get_status, payment_record, new_record, insert_checked,
}
use buyback.Engine.Http.{
  StatusCode, Body, create, get_payment, error_response, respond, error_code, default_payment,
  created_response,
}

-- No error is answered as a creation.
failed-code : (x : Error) → (error_response x).code ≢ StatusCode.created
unfolding error_response respond error_code
failed-code (Error.chain _) h = cc
failed-code (Error.store _) h = cc
failed-code (Error.crypto _) h = cc
failed-code (Error.config _) h = cc
failed-code (Error.invalid_transition _ _) h = cc
failed-code (Error.not_found _) h = cc
failed-code (Error.conflict _) h = cc
failed-code (Error.insufficient _) h = cc
failed-code (Error.event_missing _) h = cc

module _ ⦃codec : Ss58⦄ (e : Engine) where
  inserted :
      (db : Db) (rec : PaymentRecord) (db' : Db)
      → insert db rec ≡ ok db'
      → get db' rec.id ≡ some rec
  unfolding get
  inserted db rec db' h = ground (arith, insert-find_row db rec db' h rec.id)

  -- The record is in the tables.
  abbrev IsStored : PaymentRecord → World → Type 0
  IsStored rec w = get w.db rec.id ≡ some rec

  committed :
      (rec : PaymentRecord) (w : World) (r : Result Db)
      → insert w.db rec ≡ r
      → (a : Unit {0}) → (commit_db e w r).0 ≡ ok a
      → IsStored rec (commit_db e w r).1
  committed rec w (ok db) h a done = inserted w.db rec db h
  committed rec w (err x) h a done = absurd cc

  store_insert-Ends : (rec : PaymentRecord) → Ends (store_insert e rec) (λ _. IsStored rec)
  unfolding store_insert
  store_insert-Ends rec = record {
    holds = λ w a h. committed rec (tick_world e w) (insert (tick_world e w).db rec) refl a h;
  }

  insert_checked-Ends : (rec : PaymentRecord) → Ends (insert_checked e rec) (λ _. IsStored rec)
  unfolding insert_checked
  insert_checked-Ends rec =
      ends_bind _ (λ _. IsStored rec)
        (λ _. ends_bind _ (λ _. IsStored rec) (λ _. store_insert-Ends rec))

  -- The tables have a record as the request says, which has not begun.
  pub record IsCreated (opts : CreatePayment) (req : PaymentRequest) (w : World) : Type 0 where
    pub rec : PaymentRecord
    pub is_stored : get w.db req.id ≡ some rec
    pub same_job : (rec.id ≡ req.id) × (rec.address ≡ req.address) × (rec.netuid ≡ req.netuid)
    pub same_limits :
        (rec.min_alpha ≡ req.min_alpha)
        × (rec.min_tao ≡ req.min_tao)
        × (rec.expires_at ≡ req.expires_at)
    pub asked : rec.min_alpha ≡ unwrap_or opts.min_alpha e.cfg.min_alpha
    pub is_new : (rec.state ≡ PaymentState.pending) × (rec.pending ≡ none) × (rec.version ≡ 0)

  create_payment-Ends : (opts : CreatePayment) → Ends (create_payment e opts) (IsCreated opts)
  unfolding create_payment payment_record new_record
  create_payment-Ends opts =
      let P = IsCreated opts in
      ends_bind _ P (λ w. ends_bind _ P (λ id. ends_bind _ P (λ sealed. ends_bind _ P (λ t.
        let rec = payment_record e opts id (ss58 w) sealed t in
        ends_map _ (λ _. IsStored rec) P
          (λ _ w' stored. record {
            rec = rec;
            is_stored = stored;
            same_job = (refl, refl, refl);
            same_limits = (refl, refl, refl);
            asked = refl;
            is_new = (refl, refl, refl);
          })
          (insert_checked-Ends rec)))))

  -- A created answer comes of a payment that has been made.
  made :
      (r : Result PaymentRequest × World) (req : PaymentRequest) (w : World)
      → created_response e r
        ≡ (record { code = StatusCode.created; body = Body.payment_request req }, w)
      → (r.0 ≡ ok req) × (r.1 ≡ w)
  made (ok q, v) req w h =
      let same : Body.payment_request q ≡ Body.payment_request req = ap (λ p. p.0.body) h in
      (cc, ap (λ p. p.1) h)
  made (err x, v) req w h = absurd (failed-code x (ap (λ p. p.0.code) h))

  -- What a status query of a stored payment answers.
  read_back :
      (rec : PaymentRecord) (id : String) (w : World)
      → e.rpc.meanwhile w.awaits w.db ≡ w.db
      → get w.db id ≡ some rec
      → (get_payment e id w).0
        ≡ record { code = StatusCode.ok_code; body = Body.payment_status (status rec) }
  unfolding get_payment get_status store_get tick_world ◌>>=◌ lift pure
  read_back rec id w quiet stored = rw (quiet, stored) refl

  -- A payment that a client has created over HTTP is found by a status query with its id, if no other
  -- process writes to the tables between the two: the answer is the pending payment, with the address,
  -- the subnet, the least amounts and the end that the client was told, and the least alpha is the one that
  -- was asked for or the configured one.
  pub get_payment-create :
      (body : Option CreatePayment) (req : PaymentRequest) (w w' : World)
      → create e body w
        ≡ (record { code = StatusCode.created; body = Body.payment_request req }, w')
      → e.rpc.meanwhile w'.awaits w'.db ≡ w'.db
      → (s : PaymentStatus) × ((get_payment e req.id w').0
          ≡ record { code = StatusCode.ok_code; body = Body.payment_status s })
        × (s.state ≡ PaymentState.pending)
        × (s.id ≡ req.id)
        × (s.address ≡ req.address)
        × (s.netuid ≡ req.netuid)
        × (s.min_alpha ≡ req.min_alpha)
        × (s.min_tao ≡ req.min_tao)
        × (s.expires_at ≡ req.expires_at)
        × (req.min_alpha ≡ unwrap_or (unwrap_or body default_payment).min_alpha e.cfg.min_alpha)
  unfolding create status
  get_payment-create body req w w' h quiet =
      let opts = unwrap_or body default_payment in
      let (done, same) = made (create_payment e opts w) req w' h in
      let c = (create_payment-Ends opts).holds w req done in
      let stored : get w'.db req.id ≡ some c.rec =
        subst (λ v. get v.db req.id ≡ some c.rec) same c.is_stored in
      let (same_id, same_address, same_netuid) = c.same_job in
      let (same_alpha, same_tao, same_end) = c.same_limits in
      (
        status c.rec,
        read_back c.rec req.id w' quiet stored,
        c.is_new.0,
        same_id,
        same_address,
        same_netuid,
        same_alpha,
        same_tao,
        same_end,
        sym same_alpha ∙ c.asked,
      )
