-- ===== src/Engine/Http.antt =====
-- The handlers of src/http.rs: what a client is answered. The routing and the JSON text are those of the
-- web framework, so a request is given as its handler gets it, and a body as the value it is made of.
use buyback.Base.{String, Option, none, unwrap_or}
use buyback.State.{PaymentRequest, PaymentStatus}
use buyback.Error.{Error, Result, ok, err, to_string}
use buyback.Keys.{Ss58}
use buyback.Engine.Env.{Engine, World}
use buyback.Engine.Requests.{CreatePayment, create_payment, get_status}

pub data StatusCode : Type 0 where
  ok_code created not_found bad_request internal_server_error : StatusCode

pub data Body : Type 0 where
  payment_request : PaymentRequest → Body
  payment_status : PaymentStatus → Body
  text : String → Body

pub record Response : Type 0 where
  pub code : StatusCode
  pub body : Body

-- The code of an error.
unfoldable pub error_code : Error → StatusCode
error_code (Error.not_found _) = StatusCode.not_found
error_code (Error.config _) = StatusCode.bad_request
error_code _ = StatusCode.internal_server_error

-- An internal error is not echoed.
unfoldable pub respond : StatusCode → Error → Response
respond StatusCode.internal_server_error e = record {
  code = StatusCode.internal_server_error;
  body = Body.text "internal error";
}
respond code e = record { code = code; body = Body.text (to_string e) }

-- `error`
unfoldable pub error_response : Error → Response
error_response e = respond (error_code e) e

-- `CreatePayment::default`
abbrev pub default_payment : CreatePayment
default_payment = record {
  min_alpha = none;
  expiry_secs = none;
  metadata = none;
  callback_url = none;
}

module _ ⦃codec : Ss58⦄ (e : Engine) where
  abbrev pub created_response : Result PaymentRequest × World → Response × World
  created_response (ok req, w) =
      (record { code = StatusCode.created; body = Body.payment_request req }, w)
  created_response (err x, w) = (error_response x, w)

  -- `create`: `POST /payments`
  unfoldable pub create : Option CreatePayment → World → Response × World
  create body w = created_response (create_payment e (unwrap_or body default_payment) w)

  abbrev pub status_response : Result PaymentStatus × World → Response × World
  status_response (ok s, w) =
      (record { code = StatusCode.ok_code; body = Body.payment_status s }, w)
  status_response (err x, w) = (error_response x, w)

  -- `status`: `GET /payments/{id}`
  unfoldable pub get_payment : (id : String) → World → Response × World
  get_payment id w = status_response (get_status e id w)
