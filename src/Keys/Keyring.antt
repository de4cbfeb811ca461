-- ===== src/Keys/Keyring.antt =====
-- `MasterKey`, `Keyring` and `PaymentWallet` of src/keys.rs: secrets sealed under versioned keys. The
-- cipher (XChaCha20-Poly1305), the hexadecimal codec and the key derivation of wallets are third-party
-- code, so they are interfaces. A nonce is drawn from the operating system, so it is an argument.
use Prim.Native.Char.{code}
use buyback.Base.{
  ℕ, String, List, [], ◌∷◌, Option, none, some, Bool, true, false, ◌≡◌, ◌&&◌, ◌||◌, not, ◌=?◌, ◌==◌,
  string_eq, is_none, is_empty, unwrap_or, length, trim, split, split_once, all_chars,
  is_alphanumeric, push_str, if◌then◌else◌,
}
use buyback.State.{SealedSecret}
use buyback.Error.{Error, Result, ok, err, ◌>>=◌, ◌>>◌, fail_if, ok_or}
use buyback.Units.Amount.{show}

abbrev pub Bytes : Type 0
Bytes = List ℕ

-- The third-party code: what is encrypted is decrypted with the same key, nonce and associated data, and
-- hexadecimal text is decoded to the bytes that it was made of.
pub record Sealing : Type 0 where
  pub encrypt : (key nonce plaintext : Bytes) → (aad : String) → Option Bytes
  pub decrypt : (key nonce ciphertext : Bytes) → (aad : String) → Option Bytes
  pub hex_encode : Bytes → String
  pub hex_decode : String → Option Bytes
  pub decrypt_encrypt :
      (key nonce plaintext : Bytes) (aad : String) (ciphertext : Bytes)
      → encrypt key nonce plaintext aad ≡ some ciphertext
      → decrypt key nonce ciphertext aad ≡ some plaintext
  pub decode_encode : (b : Bytes) → hex_decode (hex_encode b) ≡ some b

-- `s.trim_start_matches("0x")`
unfoldable pub trim_0x : String → String
trim_0x String.[] = String.[]
trim_0x (String.◌∷◌ c String.[]) = String.◌∷◌ c String.[]
trim_0x (String.◌∷◌ c (String.◌∷◌ d s)) =
    let rest = trim_0x s in
    if code c == 0x30 && code d == 0x78 then rest else String.◌∷◌ c (String.◌∷◌ d s)

module _ ⦃sealing : Sealing⦄ where
  -- `MasterKey::from_hex`
  unfoldable pub from_hex : String → Result Bytes
  from_hex s = do
    let bad = Error.config "master key must be 32 bytes of hex"
    key ← ok_or (sealing.hex_decode (trim_0x (trim s))) bad
    fail_if (not (length key == 32)) bad
    ok key

  -- `MasterKey::from_env`, of the variable's value.
  unfoldable pub key_from_env : (env : String → Option String) → (var : String) → Result Bytes
  unfolding from_hex
  key_from_env env var = do
    v ← ok_or (env var) (Error.config (push_str var " is not set"))
    from_hex v

  -- `MasterKey::to_hex`
  unfoldable pub to_hex : Bytes → String
  to_hex key = sealing.hex_encode key

  -- `MasterKey::seal`
  unfoldable pub seal_under : (nonce key plaintext : Bytes) → (aad : String) → Result SealedSecret
  seal_under nonce key plaintext aad = do
    ct ← ok_or (sealing.encrypt key nonce plaintext aad) (Error.crypto "encryption failed")
    ok (record { v = 1; nonce = sealing.hex_encode nonce; ct = sealing.hex_encode ct; kid = none })

  -- `MasterKey::open`
  unfoldable pub open_under : (key : Bytes) → SealedSecret → (aad : String) → Result Bytes
  open_under key sealed aad = do
    fail_if (not (sealed.v == 1))
        (Error.crypto (push_str "unknown sealed version " (show 3 sealed.v "")))
    nonce ← ok_or (sealing.hex_decode sealed.nonce) (Error.crypto "corrupt sealed secret")
    fail_if (not (length nonce == 24)) (Error.crypto "corrupt sealed secret")
    ct ← ok_or (sealing.hex_decode sealed.ct) (Error.crypto "corrupt sealed secret")
    ok_or (sealing.decrypt key nonce ct aad)
        (Error.crypto "decryption failed (wrong key or tampered data)")

-- The keys of a `Keyring`: a `BTreeMap` as a list of its entries.
abbrev pub Keys : Type 0
Keys = List (String × Bytes)

-- `keys.get(id)`
unfoldable pub get_key : String → Keys → Option Bytes
get_key id [] = none
get_key id ((i, key) ∷ keys) = if i =? id then some key else get_key id keys

-- `keys.insert(id, key)`
unfoldable pub put_key : String → Bytes → Keys → Keys
put_key id key [] = (id, key) ∷ []
put_key id key ((i, old) ∷ keys) =
    let rest = put_key id key keys in if i =? id then (i, key) ∷ keys else (i, old) ∷ rest

-- `keys.into_iter().collect()`: the last entry of an id stays.
unfoldable pub collect : Keys → Keys → Keys
collect keys [] = keys
collect keys ((id, key) ∷ entries) = collect (put_key id key keys) entries

-- `Keyring`
pub record Keyring : Type 0 where
  pub active : String
  pub keys : Keys

-- `DEFAULT_KEY_ID`
abbrev pub default_key_id : String
default_key_id = "k0"

-- `From<MasterKey> for Keyring`
abbrev pub keyring_of : Bytes → Keyring
keyring_of key = record { active = default_key_id; keys = (default_key_id, key) ∷ [] }

-- `c.is_ascii_alphanumeric() || c == '-' || c == '_'`
abbrev pub is_key_id_char : ℕ → Bool
is_key_id_char c = is_alphanumeric c || c == 0x2d || c == 0x5f

unfoldable pub has_bad_id : Keys → Bool
has_bad_id [] = false
has_bad_id ((id, key) ∷ keys) = is_empty id || not (all_chars is_key_id_char id) || has_bad_id keys

-- `Keyring::new`
unfoldable pub new_keyring : String → Keys → Result Keyring
new_keyring active entries = do
  let keys = collect [] entries
  fail_if (is_none (get_key active keys))
      (Error.config (push_str "active key id " (push_str active " is not in the keyring")))
  fail_if (has_bad_id keys) (Error.config "key ids are [A-Za-z0-9_-]+")
  ok (record { active = active; keys = keys })

module _ ⦃sealing : Sealing⦄ where
  -- The loop of `Keyring::parse` over the parts of the text.
  unfoldable pub parse_entries : List String → Result Keys
  parse_entries [] = ok []
  parse_entries (part ∷ parts) = elim (is_empty (trim part)) [
    | true ↦ parse_entries parts
    | false ↦ (do
      (id, hex) ← ok_or (split_once 0x3a (trim part)) (Error.config "keyring entries are id:hex")
      key ← from_hex hex
      keys ← parse_entries parts
      ok ((trim id, key) ∷ keys))
  ]

  -- `Keyring::parse`
  unfoldable pub parse_keyring : String → String → Result Keyring
  parse_keyring spec active = do
    entries ← parse_entries (split 0x2c spec)
    new_keyring active entries

  -- `s.kid = Some(self.active.clone())`
  abbrev pub with_kid : String → Result SealedSecret → Result SealedSecret
  with_kid id (ok s) = ok (record s { kid = some id })
  with_kid id (err e) = err e

  -- `Keyring::seal`; `none` is the panic of `self.keys[&self.active]` where that key is missing.
  unfoldable pub seal :
      Keyring → (nonce plaintext : Bytes) → (aad : String) → Option (Result SealedSecret)
  seal ring nonce plaintext aad = elim (get_key ring.active ring.keys) [
    | none ↦ none
    | some key ↦ some (with_kid ring.active (seal_under nonce key plaintext aad))
  ]

  -- The id of the key that a secret is sealed under.
  abbrev pub kid_of : SealedSecret → String
  kid_of sealed = unwrap_or sealed.kid default_key_id

  -- `Keyring::open`
  unfoldable pub unseal : Keyring → SealedSecret → (aad : String) → Result Bytes
  unseal ring sealed aad = do
    key ←
        ok_or (get_key (kid_of sealed) ring.keys)
          (Error.crypto (push_str "key id " (push_str (kid_of sealed) " is not in the keyring")))
    open_under key sealed aad

  abbrev pub map_some : Option (Result SealedSecret) → Option (Result (Option SealedSecret))
  map_some none = none
  map_some (some (ok s)) = some (ok (some s))
  map_some (some (err e)) = some (err e)

  abbrev pub seal_again :
      Keyring
      → (nonce : Bytes) → (aad : String) → Result Bytes
      → Option (Result (Option SealedSecret))
  seal_again ring nonce aad (err e) = some (err e)
  seal_again ring nonce aad (ok plaintext) = map_some (seal ring nonce plaintext aad)

  -- `Keyring::reseal`
  unfoldable pub reseal :
      Keyring
      → (nonce : Bytes) → SealedSecret
      → (aad : String) → Option (Result (Option SealedSecret))
  reseal ring nonce sealed aad =
      if kid_of sealed =? ring.active
      then some (ok none)
      else seal_again ring nonce aad (unseal ring sealed aad)
