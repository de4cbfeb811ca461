-- ===== src/Chain/Client.antt =====
-- The reads and the broadcast of the client `Chain` in src/chain.rs. What the node serves at its current
-- block, the signing of a call and the watching of a transaction are subxt's: the record `View` has the
-- answer to each, which may be an error.
use buyback.Base.{
  ℕ, zero, suc, ◌+◌, String, List, [], ◌∷◌, Option, none, some, Bool, ◌&&◌, not, ◌==◌, ltb,
  wrap_u64, length, push_str, if◌then◌else◌,
}
use buyback.Chain.{
  AccountId, ChainCall, FinalizedTx, PreparedTx, StakePosition, name, amount, expected_event, has,
}
use buyback.Chain.Events.{Event, from_events}
use buyback.Error.{Error, Result, ok, err, ◌>>=◌, ◌>>◌, fail_if}
use buyback.Keys.{Ss58, ss58}

-- `RawStakeInfo`
pub record RawStakeInfo : Type 0 where
  pub hotkey : AccountId
  pub netuid : ℕ
  pub stake : ℕ

-- A transaction in a finalized block: the events if the extrinsic succeeded, else the text of the error.
pub record InBlock : Type 0 where
  pub block_hash : String
  pub events : Option (List (Result Event))
  pub error : String

-- A signed transaction.
pub record Signed : Type 0 where
  pub hash : String
  pub bytes : List ℕ

-- The node at its current block. An account has its free balance and its nonce, and a hotkey without owner
-- has the account of zeros.
pub record View : Type 0 where
  pub block_number : ℕ
  pub account : AccountId → Result (Option (ℕ × ℕ))
  pub stake_info : AccountId → Result (List RawStakeInfo)
  pub stake_infos : List AccountId → Result (List (AccountId × List RawStakeInfo))
  pub owner : AccountId → Result AccountId
  pub account_nonce : AccountId → Result ℕ
  pub sign : ChainCall → AccountId → (nonce : ℕ) → Result Signed
  pub watch : List ℕ → Result InBlock

-- `account`
unfoldable pub account : Result View → AccountId → Result (ℕ × ℕ)
account current who = do
  at ← current
  found ← at.account who
  ok (elim found [ some entry ↦ entry | none ↦ (0, 0) ])

-- `free_balance`
unfoldable pub free_balance : Result View → AccountId → Result ℕ
free_balance current who = do (free, _) ← account current who; ok free

-- The positions that hold something.
unfoldable pub held_positions : List RawStakeInfo → List StakePosition
held_positions [] = []
held_positions (r ∷ raw) =
    let rest = held_positions raw in
    if ltb 0 r.stake
    then record { hotkey = r.hotkey; netuid = r.netuid; alpha = r.stake } ∷ rest
    else rest

-- `stake_positions`
unfoldable pub stake_positions : Result View → AccountId → Result (List StakePosition)
stake_positions current coldkey = do
  at ← current
  raw ← at.stake_info coldkey
  ok (held_positions raw)

-- `.filter(p)` and `.map(|p| p.alpha).sum()`, which wraps in a release build.
unfoldable pub filter_positions : (StakePosition → Bool) → List StakePosition → List StakePosition
filter_positions keep [] = []
filter_positions keep (p ∷ ps) =
    let rest = filter_positions keep ps in if keep p then p ∷ rest else rest

unfoldable pub sum_alpha : List StakePosition → ℕ
sum_alpha [] = 0
sum_alpha (p ∷ ps) = wrap_u64 (p.alpha + sum_alpha ps)

-- `alpha_on`
unfoldable pub alpha_on : Result View → AccountId → ℕ → Result (ℕ × List StakePosition)
alpha_on current coldkey netuid = do
  positions ← stake_positions current coldkey
  let pos = filter_positions (λ p. p.netuid == netuid) positions
  ok (sum_alpha pos, pos)

-- `alpha_of`
unfoldable pub alpha_of : Result View → (hotkey coldkey : AccountId) → ℕ → Result ℕ
alpha_of current hotkey coldkey netuid = do
  positions ← stake_positions current coldkey
  ok (sum_alpha (filter_positions (λ p. p.netuid == netuid && p.hotkey == hotkey) positions))

-- `hotkey_owner`
unfoldable pub hotkey_owner : Result View → AccountId → Result (Option AccountId)
hotkey_owner current hotkey = do
  at ← current
  owner ← at.owner hotkey
  ok (if owner == 0 then none else some owner)

-- A `BTreeMap` of positions as the list of its entries, the last insertion first.
abbrev pub StakeMap : Type 0
StakeMap = List (AccountId × List StakePosition)

-- The loop over the answer for one chunk.
unfoldable pub insert_all : StakeMap → List (AccountId × List RawStakeInfo) → StakeMap
insert_all out [] = out
insert_all out ((coldkey, infos) ∷ answers) =
    insert_all ((coldkey, held_positions infos) ∷ out) answers

-- The first 64 accounts, of which `room` are left to take, and the others.
unfoldable pub chunk : (room : ℕ) → List AccountId → List AccountId × List AccountId
chunk zero keys = ([], keys)
chunk (suc room) [] = ([], [])
chunk (suc room) (key ∷ keys) = let (first, rest) = chunk room keys in (key ∷ first, rest)

-- The loop over the chunks; `rounds` bounds their number.
unfoldable pub query_chunks : View → (rounds : ℕ) → StakeMap → List AccountId → Result StakeMap
query_chunks at zero out keys = ok out
query_chunks at (suc rounds) out [] = ok out
query_chunks at (suc rounds) out (key ∷ keys) = do
  let (first, rest) = chunk 64 (key ∷ keys)
  answers ← at.stake_infos first
  query_chunks at rounds (insert_all out answers) rest

-- `stake_positions_many`
unfoldable pub stake_positions_many : Result View → List AccountId → Result StakeMap
stake_positions_many current coldkeys = do
  at ← current
  query_chunks at (length coldkeys) [] coldkeys

-- `prepare`
unfoldable pub prepare : ⦃codec : Ss58⦄ → Result View → ChainCall → AccountId → Result PreparedTx
prepare current call who = do
  at ← current
  nonce ← at.account_nonce who
  tx ← at.sign call who nonce
  ok (record {
    call = call;
    signer = ss58 who;
    nonce = nonce;
    tx_hash = tx.hash;
    birth_block = at.block_number;
    bytes = tx.bytes;
  })

-- `wait_for_success`
unfoldable pub succeed : ChainCall → InBlock → Result (List (Result Event))
succeed call in_block = elim in_block.events [
  | some events ↦ ok events
  | none ↦ err (
      Error.chain (
        push_str (name call)
          (push_str " failed in " (push_str in_block.block_hash (push_str ": " in_block.error)))))
]

-- `broadcast`
unfoldable pub broadcast : Result View → PreparedTx → Result FinalizedTx
broadcast current p = do
  at ← current
  in_block ← at.watch p.bytes
  events ← succeed p.call in_block
  summary ← from_events events
  let (pal, e) = expected_event p.call
  fail_if (not (has summary pal e)) (Error.event_missing e)
  ok (record {
    tx = record {
      action = name p.call;
      tx_hash = p.tx_hash;
      block_hash = in_block.block_hash;
      amount = amount p.call;
    };
    summary = summary;
  })

-- `submit`: the node is at a later block when it sends.
unfoldable pub submit :
    ⦃codec : Ss58⦄ → (signing sending : Result View) → ChainCall → AccountId → Result FinalizedTx
submit signing sending call who = do p ← prepare signing call who; broadcast sending p
