-- ===== src/Webhook.antt =====
-- src/webhook.rs: the signing and posting of a settlement. The MAC (HMAC-SHA256), the hexadecimal text, the JSON
-- text and the HTTP client are third-party code: the record `Transport` has what each of them returns.
use buyback.Base.{ℕ, String, Bool, not, ◌&&◌, leb, ltb, push_str}
use buyback.Error.{Error, Result, ok, ◌>>=◌, ◌>>◌, fail_if}
use buyback.Keys.Keyring.{Bytes, Sealing}
use buyback.State.{PaymentStatus}

-- A POST request, with the headers that are set on it.
pub record Post : Type 0 where
  pub url : String
  pub content_type : String
  pub signature : String
  pub body : Bytes

-- The text of an error stands beside it, and a response as its status code, with its text.
pub record Transport : Type 0 where
  pub hmac_sha256 : (key body : Bytes) → Bytes
  pub to_vec : PaymentStatus → Result Bytes
  pub send : Post → Result ℕ
  pub show_code : ℕ → String

-- `StatusCode::is_2xx`
abbrev is_2xx : ℕ → Bool
is_2xx code = leb 200 code && ltb code 300

module _ ⦃sealing : Sealing⦄ (net : Transport) where
  -- `sign`
  unfoldable pub sign : (secret body : Bytes) → String
  sign secret body = push_str "sha256=" (sealing.hex_encode (net.hmac_sha256 secret body))

  -- `Webhook::post`, of a webhook with this secret.
  unfoldable pub post : (secret : Bytes) → (url : String) → PaymentStatus → Result (Unit {0})
  unfolding sign
  post secret url status = do
    body ← net.to_vec status
    code ← net.send (record {
      url = url;
      content_type = "application/json";
      signature = sign secret body;
      body = body;
    })
    fail_if (not (is_2xx code)) (Error.chain (push_str "webhook returned " (net.show_code code)))
    ok tt
