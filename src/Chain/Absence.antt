-- ===== src/Chain/Absence.antt =====
-- What the answers of `find_pending` (src/chain.rs) rest on.
use mathlib.Core.Path.{subst}
use buyback.Base.{
  ℕ, ℕ_discrete, inl, inr, zero, suc, ◌+◌, ◌-◌, ◌≤◌, ◌<◌, min, String, List, [], ◌∷◌, none, some,
  string_eq, ◌≡◌, ◌≢◌, refl, arith, All, Option-cases,
}
use buyback.Chain.{PendingTx, PendingOutcome}
use buyback.Error.{Result, ok, err, Result-cases}
use buyback.Chain.Finalized.{
  Extrinsic, Block, Node, mortality, find_in_block, find_from, find_pending, horizon_of,
}

-- The block was read, with each of its extrinsics, and none is the transaction.
abbrev pub IsAbsent : String → Result Block → Type 0
IsAbsent tx_hash b =
    (block : Block) × (b ≡ ok block)
    × All (λ x. (ext : Extrinsic) × (x ≡ ok ext) × (ext.hash ≢ tx_hash)) block.extrinsics

in_block-absent :
    (tx_hash block_hash : String) (exts : List (Result Extrinsic))
    → find_in_block tx_hash block_hash exts ≡ ok none
    → All (λ x. (ext : Extrinsic) × (x ≡ ok ext) × (ext.hash ≢ tx_hash)) exts
unfolding find_in_block
in_block-absent tx_hash block_hash [] h = tt
in_block-absent tx_hash block_hash (err e ∷ exts) h = cc
in_block-absent tx_hash block_hash (ok ext ∷ exts) h = elim (Result-cases ext.events) [
  | inl (x, e) ↦
      ((ext, refl, ground (arith, e)), in_block-absent tx_hash block_hash exts (ground (arith, e)))
  | inr (a, e) ↦
      ((ext, refl, ground (arith, e)), in_block-absent tx_hash block_hash exts (ground (arith, e)))
]

from-step :
    (node : Node) (tx_hash : String) (count n : ℕ)
    → find_from node tx_hash (suc count) n ≡ ok none
    → IsAbsent tx_hash (node.at_block n) × (find_from node tx_hash count (suc n) ≡ ok none)
unfolding find_from
from-step node tx_hash count n h = elim (Result-cases (node.at_block n)) [
  | inl (x, e) ↦ absurd (ground (arith, e))
  | inr (b, e) ↦ elim (Result-cases (find_in_block tx_hash b.block_hash b.extrinsics)) [
    | inl (x, e') ↦ absurd (ground (arith, e, e'))
    | inr (none, e') ↦
        ((b, e, in_block-absent tx_hash b.block_hash b.extrinsics e'), ground (arith, e, e'))
    | inr (some o, e') ↦ absurd (ground (arith, e, e'))
  ]
]

from-IsAbsent :
    (node : Node) (tx_hash : String) (count n : ℕ)
    → find_from node tx_hash count n ≡ ok none
    → (k : ℕ) → n ≤ k
    → k < n + count
    → IsAbsent tx_hash (node.at_block k)
from-IsAbsent node tx_hash zero n h k a b = absurd (omega arith)
from-IsAbsent node tx_hash (suc count) n h k a b =
    let (here, rest) = from-step node tx_hash count n h in
    elim (ℕ_discrete n k) [
      | yes e ↦ subst (λ i. IsAbsent tx_hash (node.at_block i)) e here
      | no d ↦ from-IsAbsent node tx_hash count (suc n) rest k (omega (arith, d)) (omega arith)
    ]

-- What the search finds is an inclusion, never a verdict.
in_block-included :
    (tx_hash block_hash : String) (exts : List (Result Extrinsic)) (o : PendingOutcome)
    → find_in_block tx_hash block_hash exts ≡ ok (some o)
    → o ≢ PendingOutcome.dead
unfolding find_in_block
in_block-included tx_hash block_hash [] o h = cc
in_block-included tx_hash block_hash (err e ∷ exts) o h = cc
in_block-included tx_hash block_hash (ok ext ∷ exts) o h = elim (Result-cases ext.events) [
  | inl (x, e) ↦ ground (arith, e, in_block-included tx_hash block_hash exts o)
  | inr (a, e) ↦ ground (arith, e, in_block-included tx_hash block_hash exts o)
]

from-included :
    (node : Node) (tx_hash : String) (count n : ℕ) (o : PendingOutcome)
    → find_from node tx_hash count n ≡ ok (some o)
    → o ≢ PendingOutcome.dead
unfolding find_from
from-included node tx_hash zero n o h = cc
from-included node tx_hash (suc count) n o h = elim (Result-cases (node.at_block n)) [
  | inl (x, e) ↦ absurd (ground (arith, e))
  | inr (b, e) ↦ elim (Result-cases (find_in_block tx_hash b.block_hash b.extrinsics)) [
    | inl (x, e') ↦ absurd (ground (arith, e, e'))
    | inr (none, e') ↦ from-included node tx_hash count (suc n) o (ground (arith, e, e'))
    | inr (some o', e') ↦
        ground (arith, e, e', in_block-included tx_hash b.block_hash b.extrinsics o')
  ]
]

-- What it takes to call a transaction dead.
pub record IsDead (node : Node) (p : PendingTx) : Type 0 where
  pub head : ℕ
  pub finalized : node.best_finalized_number ≡ ok head
  pub elapsed : p.birth_block + mortality + 1 < head
  pub absent :
      (k : ℕ)
      → p.birth_block ≤ k
      → k ≤ p.birth_block + mortality + 1
      → IsAbsent p.tx_hash (node.at_block k)

dead_at :
    (node : Node) (p : PendingTx) (head horizon : ℕ)
    → node.best_finalized_number ≡ ok head
    → horizon_of p ≡ some horizon
    → find_pending node p ≡ ok PendingOutcome.dead
    → IsDead node p
unfolding find_pending
dead_at node p head horizon eh ez h =
    let count = suc (min head horizon) - p.birth_block in
    let z : horizon ≡ p.birth_block + mortality + 1 = ground (arith, ez) in
    elim (Result-cases (find_from node p.tx_hash count p.birth_block)) [
      | inl (x, e) ↦ absurd (ground (arith, eh, ez, e))
      | inr (some o, e) ↦
          absurd (ground (arith, eh, ez, e, from-included node p.tx_hash count p.birth_block o))
      | inr (none, e) ↦
          let late : horizon < head = ground (arith, eh, ez, e) in
          record {
            head = head;
            finalized = eh;
            elapsed = omega (arith, z, late);
            absent = λ k a b.
                from-IsAbsent node p.tx_hash count p.birth_block e k a (omega (arith, z, late));
          }
    ]

-- A journaled transaction is called dead only when its mortality has elapsed at the finalized head, and
-- every finalized block that could hold it has been read in full and does not.
pub find_pending-IsDead :
    (node : Node) (p : PendingTx) → find_pending node p ≡ ok PendingOutcome.dead → IsDead node p
unfolding find_pending
find_pending-IsDead node p h = elim (Result-cases node.best_finalized_number) [
  | inl (x, e) ↦ absurd (ground (arith, e))
  | inr (head, e) ↦ elim (Option-cases (horizon_of p)) [
    | inl e' ↦ absurd (ground (arith, e, e'))
    | inr (horizon, e') ↦ dead_at node p head horizon e e' h
  ]
]
