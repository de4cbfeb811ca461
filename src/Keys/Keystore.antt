-- ===== src/Keys/Keystore.antt =====
-- A sealed keystore of src/keys.rs is loaded as the treasury that was sealed.
use Prim.Native.Char.{code}
use buyback.Base.{
  not, String, some, Bool, true, false, ◌&&◌, trim, trim_start, trim_end, is_whitespace, is_empty,
  length, ◌≡◌, refl, sym, ap, ◌∙◌, inl, inr, arith, Bool-cases,
}
use buyback.Chain.{AccountId}
use buyback.State.{SealedSecret}
use buyback.Error.{ok, bind_ok, ok_same}
use buyback.Keys.Keyring.{Bytes, Sealing, seal_under}
use buyback.Keys.Rotation.{open_under-seal_under}
use buyback.Keys.Treasury.{
  TreasuryKeySource, Files, treasury_aad, keypair_from_uri, read_uri, read_keystore, load,
  seal_treasury,
}

-- A text that does not begin with white space.
abbrev begins : String → Bool
begins String.[] = true
begins (String.◌∷◌ c s) = not (is_whitespace (code c))

trim_start-begins : (s : String) → begins (trim_start s) ≡ true
unfolding trim_start
trim_start-begins String.[] = refl
trim_start-begins (String.◌∷◌ c s) = elim (Bool-cases (is_whitespace (code c))) [
  | inl e ↦ rw e (trim_start-begins s)
  | inr e ↦ rw (e, e) refl
]

trim_start-same : (s : String) → begins s ≡ true → trim_start s ≡ s
unfolding trim_start
trim_start-same String.[] h = refl
trim_start-same (String.◌∷◌ c s) h =
    let e : is_whitespace (code c) ≡ false = ground arith in rw e refl

trim_end-begins : (s : String) → begins s ≡ true → begins (trim_end s) ≡ true
unfolding trim_end
trim_end-begins String.[] h = refl
trim_end-begins (String.◌∷◌ c s) h =
    elim (Bool-cases (is_empty (trim_end s) && is_whitespace (code c))) [
      | inl e ↦ rw e refl
      | inr e ↦ rw e h
    ]

trim_end-trim_end : (s : String) → trim_end (trim_end s) ≡ trim_end s
unfolding trim_end
trim_end-trim_end String.[] = refl
trim_end-trim_end (String.◌∷◌ c s) =
    elim (Bool-cases (is_empty (trim_end s) && is_whitespace (code c))) [
      | inl e ↦ rw e refl
      | inr e ↦ rw (e, trim_end-trim_end s, e) refl
    ]

trim-trim : (s : String) → trim (trim s) ≡ trim s
trim-trim s =
    ap trim_end (trim_start-same (trim s) (trim_end-begins (trim_start s) (trim_start-begins s)))
    ∙ trim_end-trim_end (trim_start s)

module _ ⦃sealing : Sealing⦄ (files : Files) where
  -- The text of a keystore gives the URI that was sealed.
  read_keystore-sealed :
      (path uri : String) (master nonce : Bytes) (sealed : SealedSecret)
      → length nonce ≡ 24
      → seal_under nonce master (files.as_bytes uri) treasury_aad ≡ ok sealed
      → files.read path ≡ some (files.to_json sealed)
      → files.from_json (files.to_json sealed) ≡ some sealed
      → files.from_utf8 (files.as_bytes uri) ≡ some uri
      → read_keystore files path (some master) ≡ ok uri
  unfolding read_keystore
  read_keystore-sealed path uri master nonce sealed size made stored json utf8 =
      let opened =
        open_under-seal_under master nonce (files.as_bytes uri) treasury_aad sealed sealed.kid size
          made in
      rw (stored, json, opened, utf8) refl

  -- A treasury secret that `seal-treasury` has sealed into a file is loaded from that file with the same
  -- master key as the account that the command has printed, white space around the secret or not, if the
  -- JSON text of the sealed secret and the UTF-8 bytes of the trimmed secret are decoded to what they were
  -- made of.
  pub load-seal_treasury :
      (path uri text : String) (master nonce : Bytes) (account : AccountId)
      → length nonce ≡ 24
      → seal_treasury files master nonce uri ≡ ok (account, text)
      → files.read path ≡ some text
      → ((sealed : SealedSecret)
          → seal_under nonce master (files.as_bytes (trim uri)) treasury_aad ≡ ok sealed
          → files.from_json (files.to_json sealed) ≡ some sealed)
      → files.from_utf8 (files.as_bytes (trim uri)) ≡ some (trim uri)
      → load files (TreasuryKeySource.encrypted_keystore path) (some master) ≡ ok account
  unfolding load read_uri seal_treasury
  load-seal_treasury path uri text master nonce account size h stored json utf8 =
      let (who, derived, h1) = bind_ok (keypair_from_uri files (trim uri)) _ _ h in
      let (sealed, made, h2) =
        bind_ok (seal_under nonce master (files.as_bytes (trim uri)) treasury_aad) _ _ h1 in
      let same : (who, files.to_json sealed) ≡ (account, text) = ok_same h2 in
      let same_text : files.to_json sealed ≡ text = ap (λ p. p.1) same in
      let read =
        read_keystore-sealed path (trim uri) master nonce sealed size made
          (stored ∙ ap some (sym same_text)) (json sealed made) utf8 in
      rw (read, trim-trim uri) (derived ∙ ap (λ p. ok p.0) same)
