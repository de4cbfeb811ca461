-- ===== src/Chain/Finalized.antt =====
-- `Chain::find_pending` of src/chain.rs: the search for a journaled transaction in the finalized blocks.
-- The client of the node is an interface: a read of a block, of an extrinsic or of its events may fail.
use buyback.Base.{
  ℕ, zero, suc, ◌-◌, min, String, List, [], ◌∷◌, Option, none, some, ◌=?◌, string_eq, ltb,
  checked_add, if◌then◌else◌,
}
use buyback.Chain.{PendingTx, PendingOutcome, EventSummary}
use buyback.Error.{Error, Result, ok, err, ◌>>=◌, ok_or}

-- An extrinsic of a block, with the summary of its events.
pub record Extrinsic : Type 0 where
  pub hash : String
  pub events : Result EventSummary

pub record Block : Type 0 where
  pub block_hash : String
  pub extrinsics : List (Result Extrinsic)

pub record Node : Type 0 where
  pub best_finalized_number : Result ℕ
  pub at_block : ℕ → Result Block

-- `MORTALITY`
abbrev pub mortality : ℕ
mortality = 64

-- The loop over the extrinsics of a block.
unfoldable pub find_in_block :
    (tx_hash block_hash : String) → List (Result Extrinsic) → Result (Option PendingOutcome)
find_in_block tx_hash block_hash [] = ok none
find_in_block tx_hash block_hash (err e ∷ exts) = err e
find_in_block tx_hash block_hash (ok ext ∷ exts) =
    let rest = find_in_block tx_hash block_hash exts in
    if ext.hash =? tx_hash
    then ext.events >>= (λ summary. ok (some (PendingOutcome.included block_hash summary)))
    else rest

-- The loop over `count` blocks, from block `n` on.
unfoldable pub find_from : Node → String → (count n : ℕ) → Result (Option PendingOutcome)
find_from node tx_hash zero n = ok none
find_from node tx_hash (suc count) n = do
  block ← node.at_block n
  found ← find_in_block tx_hash block.block_hash block.extrinsics
  elim found [ none ↦ find_from node tx_hash count (suc n) | some outcome ↦ ok (some outcome) ]

-- What the end of the search says.
abbrev pub outcome_of : (head horizon : ℕ) → Option PendingOutcome → PendingOutcome
outcome_of head horizon (some outcome) = outcome
outcome_of head horizon none = if ltb horizon head then PendingOutcome.dead else PendingOutcome.wait

abbrev plus_one : Option ℕ → Option ℕ
plus_one none = none
plus_one (some n) = checked_add n 1

-- The last block that may hold the transaction.
abbrev pub horizon_of : PendingTx → Option ℕ
horizon_of p = plus_one (checked_add p.birth_block mortality)

-- `find_pending`
unfoldable pub find_pending : Node → PendingTx → Result PendingOutcome
find_pending node p = do
  head ← node.best_finalized_number
  horizon ← ok_or (horizon_of p) (Error.chain "transaction mortality overflow")
  found ← find_from node p.tx_hash (suc (min head horizon) - p.birth_block) p.birth_block
  ok (outcome_of head horizon found)
