-- ===== src/Keys/Rotation.antt =====
-- What is sealed under a key ring is opened again, also after the keys have been rotated (src/keys.rs).
use buyback.Base.{
  ◌≡◌, ◌≢◌, ap, ◌∙◌, String, Option, none, some, true, arith, string_eq, length, inl, inr, ◌⊎◌,
  Option-cases,
}
use buyback.State.{SealedSecret}
use buyback.Error.{ok, ok_or, bind_ok, ok_or_ok, Result-cases}
use buyback.Keys.Keyring.{
  Bytes, Sealing, Keys, Keyring, get_key, new_keyring, seal_under, open_under, seal, unseal, reseal,
  kid_of,
}
use buyback.Keys.Wallet.{
  Pairs, PaymentWallet, from_mini_secret, from_phrase, from_secret_bytes, seal_with, unseal_with,
}

module _ ⦃sealing : Sealing⦄ where
  pub open_under-seal_under :
      (key nonce plaintext : Bytes) (aad : String) (s : SealedSecret) (kid : Option String)
      → length nonce ≡ 24
      → seal_under nonce key plaintext aad ≡ ok s
      → open_under key (record s { kid = kid }) aad ≡ ok plaintext
  unfolding seal_under open_under
  open_under-seal_under key nonce plaintext aad s kid size h =
      let (ct, encrypted, made) =
        bind_ok (ok_or (sealing.encrypt key nonce plaintext aad) _) _ _ h in
      let back = sealing.decrypt_encrypt key nonce plaintext aad ct (ok_or_ok _ _ _ encrypted) in
      ground (arith, sealing.decode_encode nonce, sealing.decode_encode ct, back)

  -- The key of an accepted ring's active id is there.
  has_active :
      (active : String) (entries : Keys) (ring : Keyring)
      → new_keyring active entries ≡ ok ring
      → (key : Bytes) × (get_key ring.active ring.keys ≡ some key)
  unfolding new_keyring
  has_active active entries ring h = elim (Option-cases (get_key ring.active ring.keys)) [
    | inl missing ↦ absurd (ground arith)
    | inr found ↦ found
  ]

  sealed_by :
      (ring : Keyring) (nonce plaintext : Bytes) (aad : String) (s : SealedSecret)
      → seal ring nonce plaintext aad ≡ some (ok s)
      → (key : Bytes) × (s' : SealedSecret) × (get_key ring.active ring.keys ≡ some key)
        × (seal_under nonce key plaintext aad ≡ ok s')
        × (s ≡ record s' { kid = some ring.active })
  unfolding seal
  sealed_by ring nonce plaintext aad s h = elim (Option-cases (get_key ring.active ring.keys)) [
    | inl missing ↦ absurd (ground arith)
    | inr (key, found) ↦ elim (Result-cases (seal_under nonce key plaintext aad)) [
      | inl (e, failed) ↦ absurd (ground arith)
      | inr (s', made) ↦ (key, s', found, made, ground arith)
    ]
  ]

  pub unseal-seal :
      (ring ring' : Keyring) (nonce plaintext : Bytes) (aad : String) (s : SealedSecret)
      → length nonce ≡ 24
      → seal ring nonce plaintext aad ≡ some (ok s)
      → get_key ring.active ring'.keys ≡ get_key ring.active ring.keys
      → unseal ring' s aad ≡ ok plaintext
  unfolding unseal
  unseal-seal ring ring' nonce plaintext aad s size h same =
      let (key, s', found, made, e) = sealed_by ring nonce plaintext aad s h in
      rw (e, same, found)
        (open_under-seal_under key nonce plaintext aad s' (some ring.active) size made)

  -- What a re-sealing that writes a new secret did.
  reseal_again :
      (ring : Keyring) (nonce : Bytes) (s s' : SealedSecret) (aad : String)
      → reseal ring nonce s aad ≡ some (ok (some s'))
      → (plaintext : Bytes) × (unseal ring s aad ≡ ok plaintext)
        × (seal ring nonce plaintext aad ≡ some (ok s'))
  unfolding reseal
  reseal_again ring nonce s s' aad h = elim (Result-cases (unseal ring s aad)) [
    | inl (e, failed) ↦ absurd (ground arith)
    | inr (plaintext, opened) ↦ (plaintext, opened, ground arith)
  ]

  kid-seal :
      (ring : Keyring) (nonce plaintext : Bytes) (aad : String) (s : SealedSecret)
      → seal ring nonce plaintext aad ≡ some (ok s)
      → s.kid ≡ some ring.active
  kid-seal ring nonce plaintext aad s h =
      let (_, _, _, _, e) = sealed_by ring nonce plaintext aad s h in
      ap (λ (x : SealedSecret). x.kid) e

  -- After a rotation of the keys: a secret that the ring can open is either under its active key already, and
  -- is left, or it is sealed again, and then every ring that has the active key under its id opens the new
  -- secret to the same plaintext, and a second re-sealing leaves it.
  pub unseal-reseal :
      (ring ring' : Keyring) (nonce nonce' plaintext : Bytes) (aad : String) (s s' : SealedSecret)
      → length nonce ≡ 24
      → unseal ring s aad ≡ ok plaintext
      → reseal ring nonce s aad ≡ some (ok (some s'))
      → get_key ring.active ring'.keys ≡ get_key ring.active ring.keys
      → (kid_of s ≢ ring.active)
        × (s'.kid ≡ some ring.active)
        × (unseal ring' s' aad ≡ ok plaintext)
        × (reseal ring nonce' s' aad ≡ some (ok none))
  unfolding reseal
  unseal-reseal ring ring' nonce nonce' plaintext aad s s' size opened h same =
      let (plaintext', opened', sealed) = reseal_again ring nonce s s' aad h in
      let e : plaintext' ≡ plaintext = cc in
      let kid = kid-seal ring nonce plaintext' aad s' sealed in
      (
        λ c. ground arith,
        kid,
        unseal-seal ring ring' nonce plaintext' aad s' size sealed same ∙ ap ok e,
        rw kid (ground arith),
      )

module _ ⦃pairs : Pairs⦄ ⦃sealing : Sealing⦄ where
  -- A wallet of 32 bytes is from a mini secret, another one from the UTF-8 of a phrase.
  abbrev pub IsFrom : PaymentWallet → Type 0
  IsFrom w =
      ((length w.secret ≡ 32) × (from_mini_secret w.secret ≡ ok w))
      ⊎ ((length w.secret ≢ 32) × (pairs.is_utf8 w.secret ≡ true) × (from_phrase w.secret ≡ ok w))

  from_secret_bytes-secret : (w : PaymentWallet) → IsFrom w → from_secret_bytes w.secret ≡ ok w
  unfolding from_secret_bytes
  from_secret_bytes-secret w h = ground arith

  -- A wallet is back as it was after it has been sealed under the active key of a ring and opened by any
  -- ring that has the same key under that id, with the same associated data.
  pub unseal_with-seal_with :
      (w : PaymentWallet) (ring ring' : Keyring) (nonce : Bytes) (aad : String) (s : SealedSecret)
      → IsFrom w
      → length nonce ≡ 24
      → seal_with w ring nonce aad ≡ some (ok s)
      → get_key ring.active ring'.keys ≡ get_key ring.active ring.keys
      → unseal_with ring' s aad ≡ ok w
  unfolding seal_with unseal_with
  unseal_with-seal_with w ring ring' nonce aad s from size h same =
      rw (unseal-seal ring ring' nonce w.secret aad s size h same) (from_secret_bytes-secret w from)
