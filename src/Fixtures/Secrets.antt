-- ===== src/Fixtures/Secrets.antt =====
-- Concrete stand-ins for the third-party code that src/keys.rs calls: a cipher that adds one to every
-- byte, a codec that spells a byte by as many letters, and key pairs from the first byte.
use Prim.Native.Char.{code}
use buyback.Base.{
  ℕ, zero, suc, ◌+◌, ◌-◌, ◌==◌, ◌≡◌, refl, ◌∙◌, ap, arith, String, [], ◌∷◌, Option, none, some,
  true, if◌then◌else◌,
}
use buyback.Error.{Error, ok, err}
use buyback.Keys.Keyring.{Bytes, Sealing}
use buyback.Keys.Wallet.{Pairs}

abbrev pub shifted : Bytes → Bytes
shifted [] = []
shifted (b ∷ bs) = (b + 1) ∷ shifted bs

abbrev pub unshifted : Bytes → Bytes
unshifted [] = []
unshifted (b ∷ bs) = (b - 1) ∷ unshifted bs

pub unshifted-shifted : (bs : Bytes) → unshifted (shifted bs) ≡ bs
unshifted-shifted [] = refl
unshifted-shifted (b ∷ bs) = ground (arith, unshifted-shifted bs)

abbrev pub letters : ℕ → String → String
letters zero rest = String.◌∷◌ "." rest
letters (suc n) rest = String.◌∷◌ "a" (letters n rest)

abbrev pub spelled : Bytes → String
spelled [] = ""
spelled (b ∷ bs) = letters b (spelled bs)

abbrev pub and_then : ℕ → Option Bytes → Option Bytes
and_then b none = none
and_then b (some bs) = some (b ∷ bs)

abbrev pub read_letters : ℕ → String → Option Bytes
read_letters n String.[] = some []
read_letters n (String.◌∷◌ c s) =
    let more = read_letters (suc n) s in
    let next = and_then n (read_letters 0 s) in if code c == 0x61 then more else next

read_letters-letters :
    (n b : ℕ) (rest : String)
    → read_letters n (letters b rest) ≡ and_then (n + b) (read_letters 0 rest)
read_letters-letters n zero rest = ap (λ (k : ℕ). and_then k (read_letters 0 rest)) (omega arith)
read_letters-letters n (suc b) rest =
    read_letters-letters (suc n) b rest
    ∙ ap (λ (k : ℕ). and_then k (read_letters 0 rest)) (omega arith)

pub read_letters-spelled : (bs : Bytes) → read_letters 0 (spelled bs) ≡ some bs
read_letters-spelled [] = refl
read_letters-spelled (b ∷ bs) =
    ground (arith, read_letters-letters 0 b (spelled bs), read_letters-spelled bs)

instance abbrev pub sealing : Sealing
sealing = record {
  encrypt = λ key nonce plaintext aad. some (shifted plaintext);
  decrypt = λ key nonce ciphertext aad. some (unshifted ciphertext);
  hex_encode = spelled;
  hex_decode = read_letters 0;
  decrypt_encrypt =
      λ key nonce plaintext aad ciphertext h. ground (arith, unshifted-shifted plaintext);
  decode_encode = read_letters-spelled;
}

abbrev pub first_byte : Bytes → Option ℕ
first_byte [] = none
first_byte (b ∷ bs) = some b

instance abbrev pub pairs : Pairs
pairs = record {
  of_mini_secret = first_byte;
  of_phrase = λ phrase. err (Error.crypto "mnemonic has an invalid word count");
  is_utf8 = λ bytes. true;
  phrase_of = λ entropy. ok entropy;
}
