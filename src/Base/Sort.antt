-- ===== src/Base/Sort.antt =====
-- A stable sort by a key: `ORDER BY` of SQLite on a column, and Rust's `sort_by_key`.
use Prim.Native.Nat.{ℕ, ◌≤◌}
use mathlib.Core.Logic.{inl, inr}
use mathlib.Core.List.{List, [], ◌∷◌, ◌++◌, Perm, perm_middle, append-nil}
use mathlib.Core.List.Perm
use native.Mathlib.Omega.{arith}
use buyback.Base.Tests.{ltb, if◌then◌else◌, Bool-cases}
use buyback.Base.Lists.{All}

module _ {ℓ} {A : Type ℓ} (key : A → ℕ) where
  -- The elements come one by one, each behind those of its key.
  unfoldable pub insert_by : A → List A → List A
  insert_by x [] = x ∷ []
  insert_by x (y ∷ ys) =
      let rest = insert_by x ys in if ltb (key x) (key y) then x ∷ y ∷ ys else y ∷ rest

  unfoldable pub sort_onto : List A → List A → List A
  sort_onto done [] = done
  sort_onto done (x ∷ xs) = sort_onto (insert_by x done) xs

  unfoldable pub sort_by : List A → List A
  unfolding sort_onto insert_by
  sort_by xs = sort_onto [] xs

  abbrev pub IsSorted : List A → Type 0
  IsSorted [] = Unit
  IsSorted (x ∷ xs) = All (λ y. key x ≤ key y) xs × IsSorted xs

  insert_by-perm : (x : A) (l : List A) → Perm (insert_by x l) (x ∷ l)
  unfolding insert_by
  insert_by-perm x [] = Perm.rfl
  insert_by-perm x (y ∷ ys) = elim (Bool-cases (ltb (key x) (key y))) [
    | inl e ↦ rw e Perm.rfl
    | inr e ↦ rw e (Perm.trans (Perm.cons y (insert_by-perm x ys)) (Perm.swap x y ys))
  ]

  sort_onto-perm : (done xs : List A) → Perm (sort_onto done xs) (done ++ xs)
  unfolding sort_onto
  sort_onto-perm done [] = rw (append-nil done) Perm.rfl
  sort_onto-perm done (x ∷ xs) =
      Perm.trans (sort_onto-perm (insert_by x done) xs) (
        Perm.trans (Perm.append_right xs (insert_by-perm x done)) (Perm.symm (perm_middle done xs)))

  pub sort_by-perm : (xs : List A) → Perm (sort_by xs) xs
  unfolding sort_by
  sort_by-perm xs = sort_onto-perm [] xs

  All-insert :
      (n : ℕ) (x : A) (l : List A)
      → n ≤ key x
      → All (λ y. n ≤ key y) l
      → All (λ y. n ≤ key y) (insert_by x l)
  unfolding insert_by
  All-insert n x [] h a = (h, tt)
  All-insert n x (y ∷ ys) h a = elim (Bool-cases (ltb (key x) (key y))) [
    | inl e ↦ rw e (h, a)
    | inr e ↦ rw e (a.0, All-insert n x ys h a.1)
  ]

  All-le : (m n : ℕ) (l : List A) → m ≤ n → All (λ y. n ≤ key y) l → All (λ y. m ≤ key y) l
  All-le m n [] h a = tt
  All-le m n (y ∷ ys) h a = (omega (arith, a.0), All-le m n ys h a.1)

  insert_by-IsSorted : (x : A) (l : List A) → IsSorted l → IsSorted (insert_by x l)
  unfolding insert_by
  insert_by-IsSorted x [] s = (tt, tt)
  insert_by-IsSorted x (y ∷ ys) s = elim (Bool-cases (ltb (key x) (key y))) [
    | inl e ↦
        let le : key x ≤ key y = ground arith in rw e ((le, All-le (key x) (key y) ys le s.0), s)
    | inr e ↦
        let le : key y ≤ key x = ground arith in
        rw e (All-insert (key y) x ys le s.0, insert_by-IsSorted x ys s.1)
  ]

  sort_onto-IsSorted : (done xs : List A) → IsSorted done → IsSorted (sort_onto done xs)
  unfolding sort_onto
  sort_onto-IsSorted done [] s = s
  sort_onto-IsSorted done (x ∷ xs) s =
      sort_onto-IsSorted (insert_by x done) xs (insert_by-IsSorted x done s)

  pub sort_by-IsSorted : (xs : List A) → IsSorted (sort_by xs)
  unfolding sort_by
  sort_by-IsSorted xs = sort_onto-IsSorted [] xs tt
