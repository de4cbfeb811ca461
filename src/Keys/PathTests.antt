-- ===== src/Keys/PathTests.antt =====
-- Runs of the derivation paths of src/keys.rs, and the theorems on them at concrete paths. The junctions and
-- keys are stand-ins: a chain code is the code points of the junction's text, and a derived key has it in front.
use Prim.Native.Char.{code, char}
use Prim.Native.String.append
use buyback.Base.{
  String, List, [], ◌∷◌, ◌++◌, map, Option, some, Bool, true, false, ◌==◌, ◌≡◌, ◌↔◌, refl, ap,
  push_str, All,
}
use buyback.Error.{ok, err}
use buyback.Keys.Keyring.{Bytes}
use buyback.Keys.Derivation.{
  Derivation, DerivationSeed, has_slash, strip_slashes, split_slashes, junctions, hard_junctions,
  derive_all, derive_mini, bad_path,
}
use buyback.Keys.Paths.{IsName, path_of, chain_code, hard_junctions-path, derive_mini-child}
use buyback.Fixtures.Secrets.{pairs}

abbrev points : String → Bytes
points String.[] = []
points (String.◌∷◌ c s) = code c ∷ points s

abbrev starts_slash : String → Bool
starts_slash String.[] = false
starts_slash (String.◌∷◌ c s) = code c == 0x2f

starts_slash-push_str : (j : String) → starts_slash (push_str "/" j) ≡ true
starts_slash-push_str j = ap starts_slash (append.cons (char 0x2f tt) "" j)

abbrev points_of : String → Option Bytes
points_of phrase = some (points phrase)

instance abbrev derivation : Derivation
derivation = record {
  entropy_of = points_of;
  pbkdf2 = λ password salt rounds. some (rounds ∷ password);
  inner = points;
  is_hard = starts_slash;
  mini_of = λ root. some root;
  hard_derive = λ mini cc. cc ++ mini;
  slash-is_hard = starts_slash-push_str;
}

abbrev seed : DerivationSeed
seed = record { root = 5 ∷ 6 ∷ [] }

abbrev deposits : String
deposits = "//a//b"

deposits_split : hard_junctions deposits ≡ ok (chain_code "a" ∷ chain_code "b" ∷ [])
unfolding hard_junctions strip_slashes split_slashes junctions has_slash
deposits_split = refl

-- A soft junction, a slash too many, and a path of no junction.
soft_refused : hard_junctions "//a/b" ≡ err (bad_path "//a/b")
unfolding hard_junctions strip_slashes split_slashes junctions has_slash
soft_refused = refl

slash_refused : hard_junctions "//a///b" ≡ err (bad_path "//a///b")
unfolding hard_junctions strip_slashes split_slashes junctions has_slash
slash_refused = refl

empty_refused : hard_junctions "//" ≡ err (bad_path "//")
unfolding hard_junctions strip_slashes split_slashes junctions has_slash
empty_refused = refl

secret_at_deposits : derive_mini seed deposits ≡ ok (0x2f ∷ 0x62 ∷ 0x2f ∷ 0x61 ∷ 5 ∷ 6 ∷ [])
unfolding derive_mini derive_all hard_junctions strip_slashes split_slashes junctions has_slash
secret_at_deposits = refl

hard_junctions-path_example :
    (hard_junctions deposits ≡ ok ((0x2f ∷ 0x61 ∷ []) ∷ (0x2f ∷ 0x62 ∷ []) ∷ [])) ↔ (
      (j : String) × (js : List String) × (deposits ≡ path_of j js)
      × IsName j
      × All IsName js
      × ((0x2f ∷ 0x61 ∷ []) ∷ (0x2f ∷ 0x62 ∷ []) ∷ [] ≡ map chain_code (j ∷ js)))
hard_junctions-path_example =
    hard_junctions-path deposits ((0x2f ∷ 0x61 ∷ []) ∷ (0x2f ∷ 0x62 ∷ []) ∷ [])

seven-IsName : IsName "7"
unfolding has_slash
seven-IsName = (refl, refl)

derive_mini-child_example :
    derive_mini seed "//a//b//7" ≡ ok (0x2f ∷ 0x37 ∷ 0x2f ∷ 0x62 ∷ 0x2f ∷ 0x61 ∷ 5 ∷ 6 ∷ [])
derive_mini-child_example =
    derive_mini-child seed deposits (0x2f ∷ 0x62 ∷ 0x2f ∷ 0x61 ∷ 5 ∷ 6 ∷ []) "7" secret_at_deposits
      seven-IsName
