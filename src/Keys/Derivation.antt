-- ===== src/Keys/Derivation.antt =====
-- `DerivationSeed` of src/keys.rs: the wallets that a phrase stands for, by their paths. The mnemonic, the
-- stretching of its entropy and the keys of schnorrkel are third-party code, and so an interface.
use Prim.Native.Char.{code}
use buyback.Base.{
  ℕ, take, String, List, [], ◌∷◌, Option, Bool, true, false, ◌≡◌, ◌&&◌, ◌||◌, not, ◌==◌, is_empty,
  trim, push_str, first_part, if◌then◌else◌,
}
use buyback.Error.{Error, Result, ok, ◌>>=◌, ◌>>◌, fail_if, ok_or}
use buyback.Keys.Keyring.{Bytes}
use buyback.Keys.Wallet.{Pairs, PaymentWallet, from_mini_secret}

-- The third-party code: the entropy of a mnemonic, PBKDF2, the chain code of a `DeriveJunction` and whether it
-- is hard, the check of a mini secret, and a hard derivation from one by a chain code. The text of a junction
-- that begins with a slash is a hard one.
pub record Derivation : Type 0 where
  pub entropy_of : String → Option Bytes
  pub pbkdf2 : (password : Bytes) (salt : String) (rounds : ℕ) → Option Bytes
  pub inner : String → Bytes
  pub is_hard : String → Bool
  pub mini_of : Bytes → Option Bytes
  pub hard_derive : (mini chain_code : Bytes) → Bytes
  pub slash-is_hard : (j : String) → is_hard (push_str "/" j) ≡ true

-- `j.contains('/')`
unfoldable pub has_slash : String → Bool
has_slash String.[] = false
has_slash (String.◌∷◌ c s) = code c == 0x2f || has_slash s

-- `path.strip_prefix("//")`
unfoldable pub strip_slashes : String → Option String
strip_slashes String.[] = Option.none
strip_slashes (String.◌∷◌ c String.[]) = Option.none
strip_slashes (String.◌∷◌ c (String.◌∷◌ d s)) =
    if code c == 0x2f && code d == 0x2f then Option.some s else Option.none

-- `rest.split("//")`
unfoldable pub split_slashes : String → List String
split_slashes String.[] = String.[] ∷ []
split_slashes (String.◌∷◌ c String.[]) = String.◌∷◌ c String.[] ∷ []
split_slashes (String.◌∷◌ c (String.◌∷◌ d s)) =
    let found = String.[] ∷ split_slashes s in
    let other = first_part c (split_slashes (String.◌∷◌ d s)) in
    if code c == 0x2f && code d == 0x2f then found else other

-- `DerivationSeed`
pub record DerivationSeed : Type 0 where
  pub root : Bytes

abbrev pub bad_path : String → Error
bad_path path =
    Error.config (push_str "derivation path " (push_str path " must be //hard//junctions only"))

abbrev bad_phrase : Error
bad_phrase = Error.config "derivation seed is not a valid BIP39 mnemonic"

module _ ⦃derivation : Derivation⦄ where
  -- The chain code of one part of a path.
  abbrev pub junction : Error → String → Result Bytes
  junction bad j = do
    fail_if (is_empty j || has_slash j) bad
    let dj = push_str "/" j
    fail_if (not (derivation.is_hard dj)) bad
    ok (derivation.inner dj)

  -- `.map(…).collect()`
  unfoldable pub junctions : Error → List String → Result (List Bytes)
  junctions bad [] = ok []
  junctions bad (j ∷ js) = do cc ← junction bad j; ccs ← junctions bad js; ok (cc ∷ ccs)

  -- `hard_junctions`
  unfoldable pub hard_junctions : String → Result (List Bytes)
  hard_junctions path = do
    rest ← ok_or (strip_slashes path) (bad_path path)
    junctions (bad_path path) (split_slashes rest)

  -- The loop of `derive_mini`.
  unfoldable pub derive_all : Bytes → List Bytes → Bytes
  derive_all mini [] = mini
  derive_all mini (cc ∷ ccs) = derive_all (derivation.hard_derive mini cc) ccs

  -- `DerivationSeed::from_phrase`
  unfoldable pub seed_from_phrase : String → Result DerivationSeed
  seed_from_phrase phrase = do
    entropy ← ok_or (derivation.entropy_of (trim phrase)) bad_phrase
    seed ← ok_or (derivation.pbkdf2 entropy "mnemonic" 2048) bad_phrase
    ok (record { root = take 32 seed })

  -- `DerivationSeed::derive_mini`
  unfoldable pub derive_mini : DerivationSeed → String → Result Bytes
  derive_mini seed path = do
    ccs ← hard_junctions path
    mini ← ok_or (derivation.mini_of seed.root) (Error.crypto "invalid root")
    ok (derive_all mini ccs)

  -- `DerivationSeed::wallet`
  unfoldable pub wallet_at : ⦃pairs : Pairs⦄ → DerivationSeed → String → Result PaymentWallet
  wallet_at seed path = do mini ← derive_mini seed path; from_mini_secret mini
