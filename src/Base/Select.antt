-- ===== src/Base/Select.antt =====
-- The elements of a list that a Boolean test keeps.
use Prim.Native.Nat.{ℕ, ◌≤◌}
use mathlib.Core.Path.{◌≡◌, refl}
use mathlib.Core.Logic.{inl, inr, ite}
use mathlib.Core.Bool.{Bool, true, false, Bool-discrete}
use mathlib.Core.List.{List, [], ◌∷◌, Perm, filter}
use mathlib.Core.List.Perm
use buyback.Base.Tests.{if◌then◌else◌, Bool-cases}
use buyback.Base.Lists.{All}
use buyback.Base.Sort.{IsSorted}

if-ite {ℓ} :
    {A : Type ℓ} (b : Bool) (x y : A) → ite (Bool-discrete b true) x y ≡ (if b then x else y)
if-ite true x y = refl
if-ite false x y = refl

module _ {ℓ} {A : Type ℓ} (keep : A → Bool) where
  abbrev pub select : List A → List A
  select = filter (λ a. Bool-discrete (keep a) true)

  pub select-cons :
      (x : A) (xs : List A) → select (x ∷ xs) ≡ (if keep x then x ∷ select xs else select xs)
  select-cons x xs = if-ite (keep x) (x ∷ select xs) (select xs)

  pub select-Perm : {l m : List A} → Perm l m → Perm (select l) (select m)
  select-Perm p = Perm.filter (λ a. Bool-discrete (keep a) true) p

  All-select :
      (key : A → ℕ) (n : ℕ) (l : List A) → All (λ y. n ≤ key y) l → All (λ y. n ≤ key y) (select l)
  All-select key n [] a = tt
  All-select key n (x ∷ xs) a = elim (Bool-cases (keep x)) [
    | inl e ↦ rw (select-cons x xs, e) (a.0, All-select key n xs a.1)
    | inr e ↦ rw (select-cons x xs, e) (All-select key n xs a.1)
  ]

  pub select-IsSorted : (key : A → ℕ) (l : List A) → IsSorted key l → IsSorted key (select l)
  select-IsSorted key [] s = tt
  select-IsSorted key (x ∷ xs) s = elim (Bool-cases (keep x)) [
    | inl e ↦ rw (select-cons x xs, e) (All-select key (key x) xs s.0, select-IsSorted key xs s.1)
    | inr e ↦ rw (select-cons x xs, e) (select-IsSorted key xs s.1)
  ]
