-- ===== src/Keys/Paths.antt =====
-- The derivation paths of src/keys.rs: which texts are paths, and the junctions that they stand for.
use Prim.Native.Char.{Char, code, char}
use text.Mathlib.TextEquality.{Char-path}
use mathlib.Core.List.{map-append}
use buyback.Base.{
  String, List, [], ◌∷◌, ◌++◌, map, some, true, false, ◌≡◌, ◌↔◌, refl, sym, ap, ◌∙◌, arith, ◌&&◌,
  ◌||◌, ◌==◌, is_empty, push_str, cons-push_str, nil-push_str, push_str_assoc, inl, inr, Bool-cases,
  All,
}
use buyback.Error.{Error, ok, ok_or, ◌>>=◌, bind_ok, ok_or_ok, ok_same}
use buyback.Keys.Keyring.{Bytes}
use buyback.Keys.Derivation.{
  Derivation, DerivationSeed, has_slash, strip_slashes, split_slashes, junction, junctions,
  hard_junctions, derive_all, derive_mini, bad_path,
}

-- The text of a path after its first two slashes.
abbrev join_slashes : String → List String → String
join_slashes j [] = j
join_slashes j (k ∷ ks) = push_str j (push_str "//" (join_slashes k ks))

-- The path `//j//k//…`.
abbrev pub path_of : String → List String → String
path_of j js = push_str "//" (join_slashes j js)

-- A name of a junction: a text with no slash that is not empty.
abbrev pub IsName : String → Type 0
IsName j = (is_empty j ≡ false) × (has_slash j ≡ false)

abbrev slash : Char
slash = char 0x2f tt

abbrev slashed : String → String
slashed t = String.◌∷◌ slash (String.◌∷◌ slash t)

slash-push_str : (t : String) → push_str "/" t ≡ String.◌∷◌ slash t
slash-push_str t = cons-push_str slash "" t ∙ ap (String.◌∷◌ slash) (nil-push_str t)

slashes-push_str : (t : String) → push_str "//" t ≡ slashed t
slashes-push_str t = cons-push_str slash "/" t ∙ ap (String.◌∷◌ slash) (slash-push_str t)

is_slash : (c d : Char) → (code c == 0x2f && code d == 0x2f) ≡ true → (c ≡ slash) × (d ≡ slash)
is_slash c d h = (Char-path c slash (ground arith), Char-path d slash (ground arith))

split_slashes-name : (j : String) → has_slash j ≡ false → split_slashes j ≡ j ∷ []
unfolding split_slashes has_slash
split_slashes-name String.[] h = refl
split_slashes-name (String.◌∷◌ c String.[]) h = refl
split_slashes-name (String.◌∷◌ c (String.◌∷◌ d s)) h =
    ground (arith, split_slashes-name (String.◌∷◌ d s))

split_slashes-push :
    (j rest : String)
    → has_slash j ≡ false
    → split_slashes (push_str j (slashed rest)) ≡ j ∷ split_slashes rest
unfolding split_slashes has_slash
split_slashes-push String.[] rest h = rw (nil-push_str (slashed rest)) refl
split_slashes-push (String.◌∷◌ c String.[]) rest h =
    rw (cons-push_str c "" (slashed rest), nil-push_str (slashed rest)) (ground arith)
split_slashes-push (String.◌∷◌ c (String.◌∷◌ d s)) rest h =
    let e = split_slashes-push (String.◌∷◌ d s) rest (ground arith) in
    let f = rw (cons-push_str d s (slashed rest)) at e in
    rw (cons-push_str c (String.◌∷◌ d s) (slashed rest), cons-push_str d s (slashed rest))
      (ground (arith, f))

-- A path is split at the slashes that join it.
split_slashes-join :
    (j : String) (js : List String)
    → IsName j
    → All IsName js
    → split_slashes (join_slashes j js) ≡ j ∷ js
split_slashes-join j [] h hs = split_slashes-name j h.1
split_slashes-join j (k ∷ ks) h hs =
    ap (λ t. split_slashes (push_str j t)) (slashes-push_str (join_slashes k ks))
    ∙ split_slashes-push j (join_slashes k ks) h.1
    ∙ ap (λ t. j ∷ t) (split_slashes-join k ks hs.0 hs.1)

abbrev Parts : String → Type 0
Parts s = (j : String) × (js : List String) × (split_slashes s ≡ j ∷ js) × (join_slashes j js ≡ s)

join-first :
    (c : Char) (j : String) (js : List String)
    → join_slashes (String.◌∷◌ c j) js ≡ String.◌∷◌ c (join_slashes j js)
join-first c j [] = refl
join-first c j (k ∷ ks) = cons-push_str c j _

-- The parts of a text, joined again, are the text.
split_slashes-Parts : (s : String) → Parts s
unfolding split_slashes
split_slashes-Parts String.[] = ("", [], refl, refl)
split_slashes-Parts (String.◌∷◌ c String.[]) = (String.◌∷◌ c String.[], [], refl, refl)
split_slashes-Parts (String.◌∷◌ c (String.◌∷◌ d s)) =
    elim (Bool-cases (code c == 0x2f && code d == 0x2f)) [
      | inl e ↦
          let (j, js, same, joined) = split_slashes-Parts s in
          let (is_c, is_d) = is_slash c d e in
          (
            "",
            j ∷ js,
            rw e (ap (λ t. "" ∷ t) same),
            nil-push_str _ ∙ slashes-push_str _ ∙ rw (is_c, is_d, joined) refl,
          )
      | inr e ↦
          let (j, js, same, joined) = split_slashes-Parts (String.◌∷◌ d s) in
          (String.◌∷◌ c j, js, rw (e, same) refl, join-first c j js ∙ ap (String.◌∷◌ c) joined)
    ]

strip_slashes-path : (s rest : String) → strip_slashes s ≡ some rest → s ≡ slashed rest
unfolding strip_slashes
strip_slashes-path String.[] rest h = cc
strip_slashes-path (String.◌∷◌ c String.[]) rest h = cc
strip_slashes-path (String.◌∷◌ c (String.◌∷◌ d s)) rest h =
    elim (Bool-cases (code c == 0x2f && code d == 0x2f)) [
      | inl e ↦
          let (is_c, is_d) = is_slash c d e in
          let same : s ≡ rest = ground (arith, e) in rw (is_c, is_d, same) refl
      | inr e ↦ absurd (ground (arith, e))
    ]

All-snoc : (js : List String) (k : String) → All IsName js → IsName k → All IsName (js ++ k ∷ [])
All-snoc [] k h name = (name, tt)
All-snoc (j ∷ js) k h name = (h.0, All-snoc js k h.1 name)

module _ ⦃derivation : Derivation⦄ where
  -- The chain code of a junction.
  abbrev pub chain_code : String → Bytes
  chain_code j = derivation.inner (push_str "/" j)

  junction-name : (bad : Error) (j : String) → IsName j → junction bad j ≡ ok (chain_code j)
  junction-name bad j h = rw (h.0, h.1, derivation.slash-is_hard j) refl

  junctions-names :
      (bad : Error) (js : List String) → All IsName js → junctions bad js ≡ ok (map chain_code js)
  unfolding junctions
  junctions-names bad [] h = refl
  junctions-names bad (j ∷ js) h = rw (junction-name bad j h.0, junctions-names bad js h.1) refl

  junction-IsName : (bad : Error) (j : String) {cc : Bytes} → junction bad j ≡ ok cc → IsName j
  junction-IsName bad j h = elim (Bool-cases (is_empty j || has_slash j)) [
    | inl e ↦ absurd (ground (arith, e))
    | inr e ↦ (ground (arith, e), ground (arith, e))
  ]

  junctions-IsName :
      (bad : Error) (js : List String) {ccs : List Bytes}
      → junctions bad js ≡ ok ccs
      → All IsName js
  unfolding junctions
  junctions-IsName bad [] h = tt
  junctions-IsName bad (j ∷ js) h =
      let (_, first, h1) = bind_ok (junction bad j) _ _ h in
      let (_, rest, _) = bind_ok (junctions bad js) _ _ h1 in
      (junction-IsName bad j first, junctions-IsName bad js rest)

  hard_junctions-names :
      (j : String) (js : List String)
      → IsName j
      → All IsName js
      → hard_junctions (path_of j js) ≡ ok (map chain_code (j ∷ js))
  unfolding hard_junctions
  hard_junctions-names j js h hs =
      let parts : (bad : Error)
          → (ok_or (strip_slashes (path_of j js)) bad >>= λ rest.
              junctions bad (split_slashes rest))
            ≡ junctions bad (split_slashes (join_slashes j js)) =
        λ bad. rw (slashes-push_str (join_slashes j js)) (unfold strip_slashes in refl) in
      parts (bad_path (path_of j js))
      ∙ ap (junctions (bad_path (path_of j js))) (split_slashes-join j js h hs)
      ∙ junctions-names (bad_path (path_of j js)) (j ∷ js) (h, hs)

  -- The paths that `hard_junctions` accepts are the texts `//j//k//…` whose junctions have no slash and are not
  -- empty, and it gives the chain codes of these junctions in their order.
  pub hard_junctions-path :
      (path : String) (ccs : List Bytes)
      → (hard_junctions path ≡ ok ccs) ↔ (
          (j : String) × (js : List String) × (path ≡ path_of j js)
          × IsName j
          × All IsName js
          × (ccs ≡ map chain_code (j ∷ js)))
  unfolding hard_junctions
  hard_junctions-path path ccs = (
    λ h.
        let (rest, stripped, h1) = bind_ok (ok_or (strip_slashes path) (bad_path path)) _ _ h in
        let (j, js, split, joined) = split_slashes-Parts rest in
        let h2 = rw split at h1 in
        let names = junctions-IsName (bad_path path) (j ∷ js) h2 in
        (
          j,
          js,
          strip_slashes-path path rest (ok_or_ok _ _ rest stripped)
              ∙ sym (slashes-push_str rest)
              ∙ ap (push_str "//") (sym joined),
          names.0,
          names.1,
          ok_same (sym h2 ∙ junctions-names (bad_path path) (j ∷ js) names),
        ),
    λ (j, js, same, name, names, codes).
        ap hard_junctions same ∙ hard_junctions-names j js name names ∙ ap ok (sym codes),
  )

  derive_all-append :
      (mini : Bytes) (ccs : List Bytes) (cc : Bytes)
      → derive_all mini (ccs ++ cc ∷ []) ≡ derivation.hard_derive (derive_all mini ccs) cc
  unfolding derive_all
  derive_all-append mini [] cc = refl
  derive_all-append mini (c ∷ ccs) cc = derive_all-append (derivation.hard_derive mini c) ccs cc

  join_slashes-append :
      (j : String) (js : List String) (k : String)
      → join_slashes j (js ++ k ∷ []) ≡ push_str (join_slashes j js) (push_str "//" k)
  join_slashes-append j [] k = refl
  join_slashes-append j (i ∷ is) k =
      ap (λ t. push_str j (push_str "//" t)) (join_slashes-append i is k)
      ∙ ap (push_str j) (sym (push_str_assoc "//" (join_slashes i is) (push_str "//" k)))
      ∙ sym (push_str_assoc j (push_str "//" (join_slashes i is)) (push_str "//" k))

  hard_junctions-child :
      (path k : String) (ccs : List Bytes)
      → hard_junctions path ≡ ok ccs
      → IsName k
      → hard_junctions (push_str path (push_str "//" k)) ≡ ok (ccs ++ chain_code k ∷ [])
  hard_junctions-child path k ccs found name =
      let (j, js, same, first, rest, codes) = (hard_junctions-path path ccs).0 found in
      let longer : push_str path (push_str "//" k) ≡ path_of j (js ++ k ∷ []) =
        ap (λ t. push_str t (push_str "//" k)) same
        ∙ push_str_assoc "//" (join_slashes j js) (push_str "//" k)
        ∙ ap (push_str "//") (sym (join_slashes-append j js k)) in
      ap hard_junctions longer
      ∙ hard_junctions-names j (js ++ k ∷ []) first (All-snoc js k rest name)
      ∙ ap (λ t. ok (chain_code j ∷ t)) (map-append chain_code js (k ∷ []))
      ∙ ap (λ t. ok (t ++ chain_code k ∷ [])) (sym codes)

  -- Where a seed has a secret at a path, the path with one more junction, whose name has no slash and is not
  -- empty, has the secret that is derived from that one by the junction's chain code: no other part of
  -- the seed or of the path enters.
  pub derive_mini-child :
      (seed : DerivationSeed) (path : String) (mini : Bytes) (k : String)
      → derive_mini seed path ≡ ok mini
      → IsName k
      → derive_mini seed (push_str path (push_str "//" k))
        ≡ ok (derivation.hard_derive mini (chain_code k))
  unfolding derive_mini
  derive_mini-child seed path mini k h name =
      let (ccs, found, h1) = bind_ok (hard_junctions path) _ _ h in
      let (root, valid, h2) =
        bind_ok (ok_or (derivation.mini_of seed.root) (Error.crypto "invalid root")) _ _ h1 in
      let longer = hard_junctions-child path k ccs found name in
      rw (longer, valid)
        (ap ok (derive_all-append root ccs (chain_code k))
          ∙ ap (λ t. ok (derivation.hard_derive t (chain_code k))) (ok_same h2))
