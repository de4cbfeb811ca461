-- ===== src/Engine/HttpTests.antt =====
-- A payment created and read back over HTTP (src/http.rs), and the theorem on it.
use buyback.Base.{none, ◌≡◌, refl, String-discrete, trim_end, trim_start, is_whitespace, utf8_len}
use buyback.State.{PaymentState, PaymentRequest, PaymentStatus}
use buyback.Error.{Error, to_string}
use buyback.Store.{find_row}
use buyback.State.Budget.{validate}
use buyback.Store.Sqlite.{insert, get}
use buyback.Engine.Env
use buyback.Engine.Env.{World}
use buyback.Engine.Requests.{create_payment, payment_record, new_record, insert_checked, get_status}
use buyback.Engine.Http.{StatusCode, Body, create, get_payment, error_response, error_code, respond}
use buyback.Engine.Roundtrip.{get_payment-create}
use buyback.Fixtures.{engine, world, codec}

abbrev before : World
before = record world { awaits = 2 }

abbrev after : World
after = (create engine none before).1

abbrev request : PaymentRequest
request = record {
  id = "55";
  address = "555";
  netuid = 1;
  min_alpha = 1_000_000_000;
  min_tao = none;
  expires_at = 4602;
}

is_created :
    create engine none before
    ≡ (record { code = StatusCode.created; body = Body.payment_request request }, after)
unfolding create create_payment payment_record new_record insert_checked Env.◌>>=◌ Env.lift Env.pure
    Env.draw Env.now Env.store_insert Env.tick_world find_row insert validate String-discrete
    trim_end trim_start is_whitespace utf8_len
is_created = refl

get_payment-create_example :
    (s : PaymentStatus) × ((get_payment engine "55" after).0
      ≡ record { code = StatusCode.ok_code; body = Body.payment_status s })
    × (s.state ≡ PaymentState.pending)
    × (s.id ≡ "55")
    × (s.address ≡ "555")
    × (s.netuid ≡ 1)
    × (s.min_alpha ≡ 1_000_000_000)
    × (s.min_tao ≡ none)
    × (s.expires_at ≡ 4602)
    × (request.min_alpha ≡ 1_000_000_000)
get_payment-create_example = get_payment-create engine none request before after is_created refl

-- The store's own words do not reach the client.
is_not_echoed :
    error_response (Error.store "disk full")
    ≡ record { code = StatusCode.internal_server_error; body = Body.text "internal error" }
unfolding error_response error_code respond
is_not_echoed = refl

is_missing :
    (get_payment engine "6" world).0
    ≡ record { code = StatusCode.not_found; body = Body.text "payment 6 not found" }
unfolding get_payment get_status Env.store_get Env.tick_world Env.◌>>=◌ Env.lift Env.pure
    error_response error_code respond to_string find_row get
is_missing = refl
