-- ===== src/Keys.antt =====
-- src/keys.rs, the part that the rest of the crate relies on: addresses. The SS58 codec is that of
-- subxt's `AccountId32`, so it is an interface here. Child modules: Keyring (sealing, and the keys by
-- their ids), Wallet (`PaymentWallet`), Derivation (`DerivationSeed`), Treasury (`TreasuryKeySource`), Rotation,
-- Keystore and Paths (proofs),
-- Tests.
pub mod Keyring
pub mod Wallet
pub mod Rotation
pub mod Treasury
pub mod Keystore
pub mod Derivation
pub mod Paths
mod PathTests
mod Tests
use buyback.Base.{String, Option, some, ◌≡◌, push_str}
use buyback.Chain.{AccountId}
use buyback.Error.{Error, Result, ok_or}

-- `Display` and `FromStr` of `AccountId32`: what is printed is parsed back.
pub record Ss58 : Type 0 where
  pub encode : AccountId → String
  pub decode : String → Option AccountId
  pub decode_encode : (a : AccountId) → decode (encode a) ≡ some a

module _ ⦃codec : Ss58⦄ where
  -- `ss58`
  abbrev pub ss58 : AccountId → String
  ss58 = codec.encode

  -- `parse_ss58`
  abbrev pub parse_ss58 : String → Result AccountId
  parse_ss58 s = ok_or (codec.decode s) (Error.config (push_str "bad ss58 address " s))

-- `wallet_aad`: the associated data that binds a sealed secret to its record.
abbrev pub wallet_aad : (payment_id address : String) → String
wallet_aad payment_id address =
    push_str "bittensor-buyback/v1/" (push_str payment_id (push_str "/" address))
