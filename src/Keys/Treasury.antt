-- ===== src/Keys/Treasury.antt =====
-- `TreasuryKeySource::load` of src/keys.rs and the `seal-treasury` command of src/bin/buyback.rs. The
-- environment, files, JSON, UTF-8 and the keys that a secret URI stands for are outside: the record
-- `Files` has what each of them returns.
use buyback.Base.{String, Option, trim, push_str}
use buyback.Chain.{AccountId}
use buyback.State.{SealedSecret}
use buyback.Error.{Error, Result, ok, ◌>>=◌, ok_or}
use buyback.Keys.Keyring.{Bytes, Sealing, seal_under, open_under}

-- `TreasuryKeySource`; a path is a text.
pub data TreasuryKeySource : Type 0 where
  env_uri mnemonic_file encrypted_keystore : String → TreasuryKeySource

-- What is read outside, and the encodings: JSON of a sealed secret, and UTF-8.
pub record Files : Type 0 where
  pub env : (var : String) → Option String
  pub read : (path : String) → Option String
  pub from_json : String → Option SealedSecret
  pub to_json : SealedSecret → String
  pub as_bytes : String → Bytes
  pub from_utf8 : Bytes → Option String
  pub from_uri : String → Option AccountId

-- `TREASURY_AAD`
abbrev pub treasury_aad : String
treasury_aad = "bittensor-buyback/v1/treasury"

-- `keypair_from_uri`
unfoldable pub keypair_from_uri : Files → String → Result AccountId
keypair_from_uri files uri = ok_or (files.from_uri uri) (Error.config "invalid secret uri")

module _ ⦃sealing : Sealing⦄ (files : Files) where
  -- `fs::read_to_string`
  abbrev pub read_to_string : String → Result String
  read_to_string p = ok_or (files.read p) (Error.config (push_str "read " p))

  -- The secret URI of a sealed keystore.
  unfoldable pub read_keystore : String → Option Bytes → Result String
  read_keystore p master = do
    key ← ok_or master (Error.config "encrypted keystore needs a master key")
    raw ← read_to_string p
    sealed ← ok_or (files.from_json raw) (Error.config "keystore is not a sealed secret")
    bytes ← open_under key sealed treasury_aad
    ok_or (files.from_utf8 bytes) (Error.crypto "keystore is not utf-8")

  -- The secret URI of a source.
  unfoldable pub read_uri : TreasuryKeySource → Option Bytes → Result String
  read_uri (TreasuryKeySource.env_uri var) master =
      ok_or (files.env var) (Error.config (push_str var " is not set"))
  read_uri (TreasuryKeySource.mnemonic_file p) master = read_to_string p
  read_uri (TreasuryKeySource.encrypted_keystore p) master = read_keystore p master

  -- `TreasuryKeySource::load`
  unfoldable pub load : TreasuryKeySource → Option Bytes → Result AccountId
  load source master = do uri ← read_uri source master; keypair_from_uri files (trim uri)

  -- The command `seal-treasury` from the URI on: the account that it prints and the text of the file.
  unfoldable pub seal_treasury :
      (master nonce : Bytes) → (uri : String) → Result (AccountId × String)
  seal_treasury master nonce uri = do
    account ← keypair_from_uri files (trim uri)
    sealed ← seal_under nonce master (files.as_bytes (trim uri)) treasury_aad
    ok (account, files.to_json sealed)
