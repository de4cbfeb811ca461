-- ===== src/Keys/Wallet.antt =====
-- `PaymentWallet` of src/keys.rs: a secret and its account. The derivation of a key pair from a mini secret
-- or a mnemonic is third-party code, and so an interface; a `Keypair` stands as its account.
use buyback.Base.{String, Option, Bool, ◌==◌, not, length, if◌then◌else◌}
use buyback.Chain.{AccountId}
use buyback.State.{SealedSecret}
use buyback.Error.{Error, Result, ok, ◌>>=◌, ◌>>◌, fail_if, ok_or}
use buyback.Keys.Keyring.{Bytes, Sealing, Keyring, seal, unseal, seal_under, open_under}

-- `Keypair::from_secret_key`, the reading of a mnemonic with the key pair that it stands for, the test of
-- `String::from_utf8`, and the mnemonic of some entropy. A text stands as its bytes in UTF-8.
pub record Pairs : Type 0 where
  pub of_mini_secret : Bytes → Option AccountId
  pub of_phrase : Bytes → Result AccountId
  pub is_utf8 : Bytes → Bool
  pub phrase_of : (entropy : Bytes) → Result Bytes

-- `PaymentWallet`
pub record PaymentWallet : Type 0 where
  pub secret : Bytes
  pub account_id : AccountId

module _ ⦃pairs : Pairs⦄ where
  -- `PaymentWallet::from_mini_secret`, of 32 bytes, and `keypair_from_mini_secret`
  unfoldable pub from_mini_secret : Bytes → Result PaymentWallet
  from_mini_secret mini = do
    account ← ok_or (pairs.of_mini_secret mini) (Error.crypto "invalid mini secret")
    ok (record { secret = mini; account_id = account })

  -- `PaymentWallet::from_phrase`
  unfoldable pub from_phrase : Bytes → Result PaymentWallet
  from_phrase phrase = do
    account ← pairs.of_phrase phrase
    ok (record { secret = phrase; account_id = account })

  -- `PaymentWallet::generate`, from 32 bytes that the operating system has drawn.
  unfoldable pub generate : (entropy : Bytes) → Result PaymentWallet
  unfolding from_phrase
  generate entropy = do phrase ← pairs.phrase_of entropy; from_phrase phrase

  -- `PaymentWallet::from_secret_bytes`
  unfoldable pub from_secret_bytes : Bytes → Result PaymentWallet
  from_secret_bytes bytes =
      if length bytes == 32
      then from_mini_secret bytes
      else (fail_if (not (pairs.is_utf8 bytes)) (Error.crypto "sealed secret is not utf-8")
          >> from_phrase bytes)

  module _ ⦃sealing : Sealing⦄ where
    -- `PaymentWallet::seal_with`
    unfoldable pub seal_with :
        PaymentWallet → Keyring → (nonce : Bytes) → (aad : String) → Option (Result SealedSecret)
    seal_with wallet ring nonce aad = seal ring nonce wallet.secret aad

    -- `PaymentWallet::unseal_with`
    unfoldable pub unseal_with : Keyring → SealedSecret → (aad : String) → Result PaymentWallet
    unseal_with ring sealed aad = do bytes ← unseal ring sealed aad; from_secret_bytes bytes

    -- `PaymentWallet::seal`
    unfoldable pub seal_by :
        PaymentWallet → (key nonce : Bytes) → (aad : String) → Result SealedSecret
    seal_by wallet key nonce aad = seal_under nonce key wallet.secret aad

    -- `PaymentWallet::unseal`
    unfoldable pub unseal_by : (key : Bytes) → SealedSecret → (aad : String) → Result PaymentWallet
    unseal_by key sealed aad = do bytes ← open_under key sealed aad; from_secret_bytes bytes
