-- ===== src/Keys/Tests.antt =====
-- Runs of the key ring of src/keys.rs, and its theorems at concrete keys.
use buyback.Base.{
  trim, ◌=?◌, string_eq, if◌then◌else◌, ap, ◌≡◌, refl, inl, [], ◌∷◌, none, some, is_whitespace,
  trim_start, trim_end, split, split_once, all_chars, String-discrete,
}
use buyback.Error.{ok}
use buyback.State.{SealedSecret}
use buyback.Keys.Keyring.{
  Bytes, Keyring, trim_0x, from_hex, parse_entries, parse_keyring, put_key, get_key, collect,
  has_bad_id, new_keyring, seal_under, open_under, seal, unseal, reseal,
}
use buyback.Keys.Wallet.{PaymentWallet, from_mini_secret, seal_with, unseal_with}
use buyback.Keys.Rotation.{unseal_with-seal_with}
use buyback.Keys.Treasury.{
  Files, TreasuryKeySource, treasury_aad, keypair_from_uri, seal_treasury, load,
}
use buyback.Keys.Keystore.{load-seal_treasury}
use buyback.Fixtures.Secrets.{sealing, pairs}

-- 32 and 24 bytes.
abbrev ones : Bytes
ones =
    1 ∷ 1 ∷ 1 ∷ 1 ∷ 1 ∷ 1 ∷ 1 ∷ 1 ∷ 1 ∷ 1 ∷ 1 ∷ 1 ∷ 1 ∷ 1 ∷ 1 ∷ 1 ∷ 1 ∷ 1 ∷ 1 ∷ 1 ∷ 1 ∷ 1 ∷ 1 ∷ 1
    ∷ 1 ∷ 1 ∷ 1 ∷ 1 ∷ 1 ∷ 1 ∷ 1 ∷ 1 ∷ []

abbrev zeros : Bytes
zeros =
    0 ∷ 0 ∷ 0 ∷ 0 ∷ 0 ∷ 0 ∷ 0 ∷ 0 ∷ 0 ∷ 0 ∷ 0 ∷ 0 ∷ 0 ∷ 0 ∷ 0 ∷ 0 ∷ 0 ∷ 0 ∷ 0 ∷ 0 ∷ 0 ∷ 0 ∷ 0 ∷ 0
    ∷ 0 ∷ 0 ∷ 0 ∷ 0 ∷ 0 ∷ 0 ∷ 0 ∷ 0 ∷ []

abbrev nonce : Bytes
nonce =
    0 ∷ 1 ∷ 2 ∷ 3 ∷ 4 ∷ 5 ∷ 6 ∷ 7 ∷ 0 ∷ 1 ∷ 2 ∷ 3 ∷ 4 ∷ 5 ∷ 6 ∷ 7 ∷ 0 ∷ 1 ∷ 2 ∷ 3 ∷ 4 ∷ 5 ∷ 6 ∷ 7
    ∷ []

-- The ring before and after the rotation from "k0" to "k1", and without the old key.
abbrev old_ring : Keyring
old_ring = record { active = "k0"; keys = ("k0", zeros) ∷ [] }

abbrev new_ring : Keyring
new_ring = record { active = "k1"; keys = ("k0", zeros) ∷ ("k1", ones) ∷ [] }

abbrev last_ring : Keyring
last_ring = record { active = "k1"; keys = ("k1", ones) ∷ [] }

ring_is_parsed :
    parse_keyring
      " k0:................................ ,,k1 : 0xa.a.a.a.a.a.a.a.a.a.a.a.a.a.a.a.a.a.a.a.a.a.a.a.a.a.a.a.a.a.a.a."
      "k1"
    ≡ ok new_ring
unfolding parse_keyring parse_entries split split_once trim_start trim_end is_whitespace from_hex
    trim_0x new_keyring collect put_key get_key has_bad_id all_chars String-discrete
ring_is_parsed = refl

abbrev wallet : PaymentWallet
wallet = record { secret = ones; account_id = 1 }

abbrev sealed_by : Keyring → SealedSecret
sealed_by ring = record {
  v = 1;
  nonce = sealing.hex_encode nonce;
  ct =
      "aa.aa.aa.aa.aa.aa.aa.aa.aa.aa.aa.aa.aa.aa.aa.aa.aa.aa.aa.aa.aa.aa.aa.aa.aa.aa.aa.aa.aa.aa.aa.aa.";
  kid = some ring.active;
}

wallet_is_sealed : seal_with wallet old_ring nonce "job" ≡ some (ok (sealed_by old_ring))
unfolding seal_with seal get_key seal_under String-discrete
wallet_is_sealed = refl

wallet_is_read : from_mini_secret ones ≡ ok wallet
unfolding from_mini_secret
wallet_is_read = refl

key_stays : get_key "k0" new_ring.keys ≡ get_key "k0" old_ring.keys
unfolding get_key String-discrete
key_stays = refl

unseal_with-seal_with_example : unseal_with new_ring (sealed_by old_ring) "job" ≡ ok wallet
unseal_with-seal_with_example =
    unseal_with-seal_with wallet old_ring new_ring nonce "job" (sealed_by old_ring)
      (inl (refl, wallet_is_read)) refl wallet_is_sealed key_stays

opens : unseal new_ring (sealed_by old_ring) "job" ≡ ok ones
unfolding unseal get_key open_under String-discrete
opens = refl

seals_again :
    reseal new_ring nonce (sealed_by old_ring) "job" ≡ some (ok (some (sealed_by new_ring)))
unfolding reseal unseal get_key open_under seal seal_under String-discrete
seals_again = refl

new_key_stays : get_key "k1" last_ring.keys ≡ get_key "k1" new_ring.keys
unfolding get_key String-discrete
new_key_stays = refl

-- A host with one keystore, which knows one secret.
abbrev keystore_of_zeros : SealedSecret
keystore_of_zeros = record (sealed_by new_ring) { kid = none }

abbrev files : Files
files = record {
  env = λ var. none;
  read = λ path. if path =? "treasury.json" then some "sealed" else none;
  from_json = λ text. if text =? "sealed" then some keystore_of_zeros else none;
  to_json = λ s. "sealed";
  as_bytes = λ text. ones;
  from_utf8 = λ bytes. some "//Alice";
  from_uri = λ uri. if uri =? "//Alice" then some 1 else none;
}

alice_is_sealed : seal_treasury files zeros nonce " //Alice " ≡ ok (1, "sealed")
unfolding seal_treasury keypair_from_uri seal_under trim_start trim_end is_whitespace
    String-discrete
alice_is_sealed = refl

alice_is_read : files.read "treasury.json" ≡ some "sealed"
unfolding String-discrete
alice_is_read = refl

alice_is_known : files.from_utf8 (files.as_bytes (trim " //Alice ")) ≡ some (trim " //Alice ")
unfolding trim_start trim_end is_whitespace
alice_is_known = refl

json_is_known :
    (s : SealedSecret)
    → seal_under nonce zeros (files.as_bytes (trim " //Alice ")) treasury_aad ≡ ok s
    → files.from_json (files.to_json s) ≡ some s
unfolding seal_under String-discrete
json_is_known s h = let same : keystore_of_zeros ≡ s = cc in ap some same

load-seal_treasury_example :
    load files (TreasuryKeySource.encrypted_keystore "treasury.json") (some zeros) ≡ ok 1
load-seal_treasury_example =
    load-seal_treasury files "treasury.json" " //Alice " "sealed" zeros nonce 1 refl alice_is_sealed
      alice_is_read json_is_known alice_is_known
