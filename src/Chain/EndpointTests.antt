-- ===== src/Chain/EndpointTests.antt =====
-- Two endpoints, of which the second answers in the second round (src/chain.rs), and the theorems on them.
use buyback.Base.{
  ℕ, ◌==◌, ◌=?◌, [], ◌∷◌, string_eq, String-discrete, none, some, true, ◌≡◌, refl, if◌then◌else◌,
}
use buyback.Chain.Connection.{Tried, rounds_of, connect_any-Tried}
use buyback.Chain.Endpoints.{
  Transport, Endpoint, split_scheme, redact_url, host_part, after_at, connect_any, at_least_one,
  connect_rounds, connect_round, try_endpoint, connect_endpoint, authorization,
}
use buyback.Error.{Error, ok}

abbrev down : Endpoint
down = record { url = "ws://node.example/rpc"; bearer = none }

abbrev up : Endpoint
up = record { url = "wss://node.example/rpc"; bearer = some "key" }

-- The handshake with the secure endpoint succeeds at attempt 3.
abbrev net : Transport (Unit {0}) ℕ
net = record {
  parse_url = λ url. some (record {
    scheme = if url =? "ws://node.example/rpc" then "ws" else "wss";
    host = some "node.example";
  });
  is_header_value = λ value. true;
  handshake = λ attempt url header. if attempt == 3 then some tt else none;
  from_backend = λ socket. ok 7;
  best_finalized_number = λ attempt client. ok 100;
}

found_in_round_two : connect_any net (down ∷ up ∷ []) 5 ≡ ok 7
unfolding connect_any connect_rounds connect_round try_endpoint connect_endpoint authorization
    String-discrete
found_in_round_two = refl

connect_any-Tried_example :
    Tried net 0
      (Error.config "no RPC endpoint configured")
      (rounds_of (at_least_one 5) (down ∷ up ∷ []))
      (connect_any net (down ∷ up ∷ []) 5)
connect_any-Tried_example = connect_any-Tried net (down ∷ up ∷ []) 5

secret_is_cut : redact_url "wss://me:pw@node.example:443/key?x=1" ≡ "wss://node.example:443"
unfolding redact_url split_scheme host_part after_at
secret_is_cut = refl
