-- ===== src/Chain/Endpoints.antt =====
-- `Network`, `Endpoint`, `Chain::connect_endpoint`, `Chain::connect_any` and `redact_url` of src/chain.rs.
-- The parsing of a URL, the WebSocket handshake and the node's answers are third-party code: the record
-- `Transport` has what each of them returns, by the number of the attempt.
use Prim.Native.Char.{code}
use buyback.Base.{
  ℕ, zero, suc, String, List, [], ◌∷◌, Option, none, some, Bool, true, false, ◌&&◌, ◌||◌, not, ◌==◌,
  ◌=?◌, string_eq, is_empty, trim, unwrap_or, push_str, if◌then◌else◌,
}
use buyback.Error.{Error, Result, ok, err, ◌>>=◌, ◌>>◌, fail_if, ok_or}

-- `Network`
pub data Network : Type 0 where
  finney test local : Network
  custom : String → Network

-- `Network::url`
unfoldable pub url : Network → String
url Network.finney = "wss://entrypoint-finney.opentensor.ai:443"
url Network.test = "wss://test.finney.opentensor.ai:443"
url Network.local = "ws://127.0.0.1:9944"
url (Network.custom u) = u

-- `s.starts_with(prefix)`
unfoldable pub starts_with : (prefix s : String) → Bool
starts_with String.[] s = true
starts_with (String.◌∷◌ c prefix) String.[] = false
starts_with (String.◌∷◌ c prefix) (String.◌∷◌ d s) = code c == code d && starts_with prefix s

-- `Network::from_str`
unfoldable pub from_str : String → Result Network
from_str s =
    if s =? "finney" || s =? "mainnet"
    then ok Network.finney
    else if s =? "test" || s =? "testnet"
    then ok Network.test
    else if s =? "local" || s =? "localnet"
    then ok Network.local
    else if starts_with "ws://" s || starts_with "wss://" s
    then ok (Network.custom s)
    else err (Error.config (push_str "unknown network " s))

-- `Endpoint`
pub record Endpoint : Type 0 where
  pub url : String
  pub bearer : Option String

-- `Endpoint::with_bearer`
unfoldable pub with_bearer : Endpoint → String → Endpoint
with_bearer ep k = record ep { bearer = if is_empty (trim k) then none else some (trim k) }

-- The text after a leading `://`.
abbrev pub strip_separator : String → Option String
strip_separator (String.◌∷◌ c (String.◌∷◌ d (String.◌∷◌ e s))) =
    if code c == 0x3a && code d == 0x2f && code e == 0x2f then some s else none
strip_separator _ = none

-- `url.split_once("://")`
unfoldable pub split_scheme : String → Option (String × String)
split_scheme String.[] = none
split_scheme (String.◌∷◌ c s) = elim (strip_separator (String.◌∷◌ c s)) [
  | some rest ↦ some (String.[], rest)
  | none ↦ elim (split_scheme s) [
    | some (scheme, rest) ↦ some (String.◌∷◌ c scheme, rest)
    | none ↦ none
  ]
]

-- `/`, `?` or `#`
abbrev pub ends_host : ℕ → Bool
ends_host c = c == 0x2f || c == 0x3f || c == 0x23

-- `rest.split(['/', '?', '#']).next()`
unfoldable pub host_part : String → String
host_part String.[] = String.[]
host_part (String.◌∷◌ c s) =
    let more = host_part s in if ends_host (code c) then String.[] else String.◌∷◌ c more

-- `host.rsplit('@').next()`, or `none` where there is no `@`.
unfoldable pub after_at : String → Option String
after_at String.[] = none
after_at (String.◌∷◌ c s) = elim (after_at s) [
  | some host ↦ some host
  | none ↦ if code c == 0x40 then some s else none
]

-- `redact_url`
unfoldable pub redact_url : String → String
redact_url url = elim (split_scheme url) [
  | some (scheme, rest) ↦
      let host = host_part rest in push_str scheme (push_str "://" (unwrap_or (after_at host) host))
  | none ↦ "<invalid url>"
]

-- A URL that the WebSocket library has parsed.
pub record ParsedUrl : Type 0 where
  pub scheme : String
  pub host : Option String

-- What the third-party code returns: the parsed URL, whether a header value is valid, the socket that the
-- handshake opens, the client on the socket, and the height of the best finalized block.
pub record Transport (Socket Client : Type 0) : Type 0 where
  pub parse_url : String → Option ParsedUrl
  pub is_header_value : String → Bool
  pub handshake : (attempt : ℕ) → ParsedUrl → (authorization : Option String) → Option Socket
  pub from_backend : Socket → Result Client
  pub best_finalized_number : (attempt : ℕ) → Client → Result ℕ

abbrev pub is_loopback : Option String → Bool
is_loopback none = false
is_loopback (some h) = h =? "127.0.0.1" || h =? "localhost" || h =? "::1" || h =? "[::1]"

abbrev pub is_secure : ParsedUrl → Bool
is_secure u = u.scheme =? "wss" || (u.scheme =? "ws" && is_loopback u.host)

-- `attempts.max(1)`
abbrev pub at_least_one : ℕ → ℕ
at_least_one zero = 1
at_least_one (suc n) = suc n

module _ {Socket Client : Type 0} (net : Transport Socket Client) where
  -- The `authorization` header.
  unfoldable pub authorization : Option String → Result (Option String)
  authorization none = ok none
  authorization (some key) = do
    let value = push_str "Bearer " key
    fail_if (not (net.is_header_value value)) (Error.config "RPC key is not a valid header value")
    ok (some value)

  -- `Chain::connect_endpoint`
  unfoldable pub connect_endpoint : (attempt : ℕ) → Endpoint → Result Client
  connect_endpoint attempt ep = do
    u ← ok_or (net.parse_url ep.url) (Error.config (push_str "bad RPC url " ep.url))
    fail_if (not (is_secure u)) (
        Error.config
          (push_str "RPC url " (push_str ep.url " must be wss:// (ws:// only on loopback)")))
    header ← authorization ep.bearer
    socket ←
        ok_or (net.handshake attempt u header)
          (Error.chain (push_str "cannot connect to " (redact_url ep.url)))
    net.from_backend socket

  -- One endpoint of `connect_any`: it connects and answers a finalized head.
  unfoldable pub try_endpoint : (attempt : ℕ) → Endpoint → Result Client
  try_endpoint attempt ep = do
    c ← connect_endpoint attempt ep
    _ ← net.best_finalized_number attempt c
    ok c

  -- The inner loop of `connect_any`: a client, or the last error and the number of attempts made.
  unfoldable pub connect_round : (attempt : ℕ) → Error → List Endpoint → Result Client × ℕ
  connect_round attempt last [] = (err last, attempt)
  connect_round attempt last (ep ∷ eps) = elim (try_endpoint attempt ep) [
    | ok c ↦ (ok c, attempt)
    | err e ↦ connect_round (suc attempt) e eps
  ]

  -- The outer loop; between two rounds the client sleeps.
  unfoldable pub connect_rounds : (rounds attempt : ℕ) → Error → List Endpoint → Result Client
  connect_rounds zero attempt last eps = err last
  connect_rounds (suc rounds) attempt last eps =
      let (tried, attempt') = connect_round attempt last eps in
      elim tried [ ok c ↦ ok c | err e ↦ connect_rounds rounds attempt' e eps ]

  -- `Chain::connect_any`
  unfoldable pub connect_any : List Endpoint → (attempts : ℕ) → Result Client
  connect_any eps attempts =
      connect_rounds (at_least_one attempts) 0 (Error.config "no RPC endpoint configured") eps
