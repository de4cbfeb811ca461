-- ===== src/Chain/Connection.antt =====
-- What `connect_endpoint` and `connect_any` of src/chain.rs return.
use buyback.Base.{
  ℕ, zero, suc, String, List, [], ◌∷◌, ◌++◌, Option, some, true, not, ◌≡◌, refl, sym, arith, inl,
  inr,
}
use mathlib.Core.Path.{subst}
use buyback.Chain.Endpoints.{
  Transport, ParsedUrl, Endpoint, is_secure, authorization, connect_endpoint, try_endpoint,
  connect_round, connect_rounds, at_least_one, connect_any,
}
use buyback.Error.{
  Error, Result, ok, err, fail_if, ok_or, Result-cases, bind_ok, check_ok, fail_if_ok, ok_or_ok,
}

-- The endpoints in the order in which they are tried: all of them, in every round.
pub rounds_of : (rounds : ℕ) → List Endpoint → List Endpoint
rounds_of zero eps = []
rounds_of (suc rounds) eps = eps ++ rounds_of rounds eps

module _ {Socket Client : Type 0} (net : Transport Socket Client) where
  -- The client comes from a handshake with a parsed URL that is `wss`, or `ws` to the own host.
  pub record IsSafelyConnected (attempt : ℕ) (ep : Endpoint) (c : Client) : Type 0 where
    pub url : ParsedUrl
    pub header : Option String
    pub socket : Socket
    pub is_parsed : net.parse_url ep.url ≡ some url
    pub is_safe : is_secure url ≡ true
    pub has_bearer : authorization net ep.bearer ≡ ok header
    pub is_open : net.handshake attempt url header ≡ some socket
    pub is_client : net.from_backend socket ≡ ok c

  pub connect_endpoint-IsSafelyConnected :
      (attempt : ℕ) (ep : Endpoint) (c : Client)
      → connect_endpoint net attempt ep ≡ ok c
      → IsSafelyConnected attempt ep c
  unfolding connect_endpoint
  connect_endpoint-IsSafelyConnected attempt ep c h =
      let (u, parsed, h1) = bind_ok (ok_or (net.parse_url ep.url) _) _ _ h in
      let (secure, h2) = check_ok (fail_if (not (is_secure u)) _) _ _ h1 in
      let (header, key, h3) = bind_ok (authorization net ep.bearer) _ _ h2 in
      let (socket, opened, h4) = bind_ok (ok_or (net.handshake attempt u header) _) _ _ h3 in
      let not_unsafe = fail_if_ok (not (is_secure u)) _ secure in
      record {
        url = u;
        header = header;
        socket = socket;
        is_parsed = ok_or_ok _ _ _ parsed;
        is_safe = ground arith;
        has_bearer = key;
        is_open = ok_or_ok _ _ _ opened;
        is_client = h4;
      }

  -- The endpoints from an attempt on are tried one after the other: an endpoint that fails passes its error
  -- on to the next one, the first that connects and answers a finalized head gives the client, and if
  -- none is left the last error is returned.
  pub data Tried : (attempt : ℕ) → Error → List Endpoint → Result Client → Type 0 where
    none_left : {attempt : ℕ} {last : Error} → Tried attempt last [] (err last)
    fails :
        {attempt : ℕ} {last e : Error} {ep : Endpoint} {eps : List Endpoint} {r : Result Client}
        → try_endpoint net attempt ep ≡ err e
        → Tried (suc attempt) e eps r
        → Tried attempt last (ep ∷ eps) r
    connects :
        {attempt : ℕ} {last : Error} {ep : Endpoint} {eps : List Endpoint} {c : Client} (head : ℕ)
        → IsSafelyConnected attempt ep c
        → net.best_finalized_number attempt c ≡ ok head
        → Tried attempt last (ep ∷ eps) (ok c)

  try_endpoint-connects :
      (attempt : ℕ) (last : Error) (ep : Endpoint) (eps : List Endpoint) (c : Client)
      → try_endpoint net attempt ep ≡ ok c
      → Tried attempt last (ep ∷ eps) (ok c)
  unfolding try_endpoint
  try_endpoint-connects attempt last ep eps c h =
      let (c', connected, h1) = bind_ok (connect_endpoint net attempt ep) _ _ h in
      let (head, answered, h2) = bind_ok (net.best_finalized_number attempt c') _ _ h1 in
      let same : c' ≡ c = cc in
      rw (← same)
        (Tried.connects head (connect_endpoint-IsSafelyConnected attempt ep c' connected) answered)

  -- What the rounds that follow make of the end of a round.
  go_on : (ℕ → Error → Result Client) → Result Client × ℕ → Result Client
  go_on rest x = elim x.0 [ ok c ↦ ok c | err e ↦ rest x.1 e ]

  connect_round-failed :
      (attempt : ℕ) (last e : Error) (ep : Endpoint) (eps : List Endpoint)
      → try_endpoint net attempt ep ≡ err e
      → connect_round net attempt last (ep ∷ eps) ≡ connect_round net (suc attempt) e eps
  unfolding connect_round
  connect_round-failed attempt last e ep eps h = rw (connect_round, h) refl

  connect_round-done :
      (attempt : ℕ) (last : Error) (ep : Endpoint) (eps : List Endpoint) (c : Client)
      → try_endpoint net attempt ep ≡ ok c
      → connect_round net attempt last (ep ∷ eps) ≡ (ok c, attempt)
  unfolding connect_round
  connect_round-done attempt last ep eps c h = rw (connect_round, h) refl

  connect_round-Tried :
      (attempt : ℕ) (last : Error) (eps more : List Endpoint) (rest : ℕ → Error → Result Client)
      → ((a : ℕ) (e : Error) → Tried a e more (rest a e))
      → Tried attempt last (eps ++ more) (go_on rest (connect_round net attempt last eps))
  unfolding go_on connect_round
  connect_round-Tried attempt last [] more rest go = go attempt last
  connect_round-Tried attempt last (ep ∷ eps) more rest go =
      let end = Tried attempt last (ep ∷ (eps ++ more)) in
      elim (Result-cases (try_endpoint net attempt ep)) [
        | inl (e, failed) ↦
            subst (λ x. end (go_on rest x))
              (sym (connect_round-failed attempt last e ep eps failed))
              (Tried.fails failed (connect_round-Tried (suc attempt) e eps more rest go))
        | inr (c, done) ↦
            subst (λ x. end (go_on rest x)) (sym (connect_round-done attempt last ep eps c done))
              (try_endpoint-connects attempt last ep (eps ++ more) c done)
      ]

  connect_rounds-Tried :
      (rounds attempt : ℕ) (last : Error) (eps : List Endpoint)
      → Tried attempt last (rounds_of rounds eps) (connect_rounds net rounds attempt last eps)
  unfolding connect_rounds rounds_of go_on
  connect_rounds-Tried zero attempt last eps = Tried.none_left
  connect_rounds-Tried (suc rounds) attempt last eps =
      connect_round-Tried attempt last eps (rounds_of rounds eps)
        (λ a e. connect_rounds net rounds a e eps) (λ a e. connect_rounds-Tried rounds a e eps)

  -- A client is looked for at every endpoint in turn, in as many rounds as were asked for and at least
  -- one, until the first that connects and answers a finalized head; its URL is `wss`, or `ws` to the own
  -- host. If every endpoint fails in every round, the error of the last one is returned, or that no
  -- endpoint is configured.
  pub connect_any-Tried :
      (eps : List Endpoint) (attempts : ℕ)
      → Tried 0
          (Error.config "no RPC endpoint configured")
          (rounds_of (at_least_one attempts) eps)
          (connect_any net eps attempts)
  unfolding connect_any
  connect_any-Tried eps attempts = connect_rounds-Tried (at_least_one attempts) 0 _ eps
