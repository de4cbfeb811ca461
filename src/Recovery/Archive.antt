-- ===== src/Recovery/Archive.antt =====
-- `Chain::verify_legacy_archive` of src/chain.rs: the scan of every block since the first old emission. The
-- client of the archive is an interface: each of its reads may fail.
use buyback.Base.{
  ℕ, zero, suc, ◌-◌, String, List, [], ◌∷◌, ◌++◌, Option, none, some, Bool, true, false, ◌&&◌, ◌||◌,
  not, ◌=?◌, ◌==◌, ltb, string_eq, length, checked_add, if◌then◌else◌,
}
use buyback.Chain.{AccountId, ChainCall, EventSummary}
use buyback.Chain.Events.{Event, from_events, signer_of}
use buyback.State.{PaymentRecord}
use buyback.Error.{Error, Result, ok, err, ◌>>=◌, ◌>>◌, fail_if, ok_or}
use buyback.Keys.{Ss58, ss58, parse_ss58}
use buyback.Recovery.{LegacyManifest, LegacyTransaction}

pub record ArchivedExtrinsic : Type 0 where
  pub address_bytes : Option (List ℕ)
  pub index : ℕ
  pub nonce : Option ℕ
  pub hash : String
  pub call_data_bytes : List ℕ
  pub events : Result (List (Result Event))

pub record ArchivedBlock : Type 0 where
  pub block_hash : String
  pub extrinsics : Result (List (Result ArchivedExtrinsic))
  pub call_data : ChainCall → Result (List ℕ)

pub record Archive : Type 0 where
  pub genesis_hash : String
  pub finalized_head : Result (ℕ × String)
  pub at_block : ℕ → Result ArchivedBlock
  pub nonce_at : ℕ → AccountId → Result ℕ
  pub block_hash_at : ℕ → Result (Option String)

-- `bad()`
abbrev pub bad_archive : Error
bad_archive = Error.chain "incomplete or inconsistent legacy archive evidence"

-- The block and the extrinsic that the source adds to the text are left out.
abbrev pub unexplained_activity : Error
unexplained_activity =
    Error.chain "unexplained signer activity; multi-job treasury histories are unsupported"

-- The variables of the scan; the map of the next nonces is a function.
pub record Scan : Type 0 where
  pub next_nonces : AccountId → Option ℕ
  pub summaries : List EventSummary

abbrev pub no_nonces : AccountId → Option ℕ
no_nonces who = none

-- `next_nonces.insert(who, nonce)`
abbrev pub put_nonce : AccountId → ℕ → (AccountId → Option ℕ) → AccountId → Option ℕ
put_nonce who nonce nonces a = if a == who then some nonce else nonces a

-- `transactions.get(i)`
unfoldable pub get_transaction : List LegacyTransaction → ℕ → Option LegacyTransaction
get_transaction [] i = none
get_transaction (t ∷ ts) zero = some t
get_transaction (t ∷ ts) (suc i) = get_transaction ts i

abbrev is_nonce : Option ℕ → ℕ → Bool
is_nonce none n = false
is_nonce (some k) n = k == n

unfoldable pub same_bytes : List ℕ → List ℕ → Bool
same_bytes [] [] = true
same_bytes (a ∷ as') (b ∷ bs) = a == b && same_bytes as' bs
same_bytes _ _ = false

-- Where an archived extrinsic of a signer and the manifest's transaction differ.
unfoldable pub is_unexplained :
    ⦃codec : Ss58⦄
    → LegacyTransaction
    → (number : ℕ) → ArchivedBlock
    → ArchivedExtrinsic
    → AccountId
    → (nonce : ℕ) → Option ℕ
    → Bool
is_unexplained expected number at ext signer nonce next =
    not (expected.block == number)
    || not (expected.index == ext.index)
    || not (expected.signer =? ss58 signer)
    || not (expected.nonce == nonce)
    || not (is_nonce next nonce)
    || not (expected.receipt.tx_hash =? ext.hash)
    || not (expected.receipt.block_hash =? at.block_hash)

abbrev pub plus_one_of : Option ℕ → Option ℕ
plus_one_of none = none
plus_one_of (some n) = checked_add n 1

-- What is done with an extrinsic of one of the signers.
unfoldable pub scan_own :
    ⦃codec : Ss58⦄
    → LegacyManifest
    → (number : ℕ) → ArchivedBlock
    → ArchivedExtrinsic
    → AccountId
    → Scan
    → Result Scan
scan_own m number at ext signer scan = do
  expected ← ok_or (get_transaction m.transactions (length scan.summaries)) unexplained_activity
  nonce ← ok_or ext.nonce bad_archive
  fail_if (is_unexplained expected number at ext signer nonce (scan.next_nonces signer)) bad_archive
  call_data ← at.call_data expected.call
  fail_if (not (same_bytes call_data ext.call_data_bytes)) bad_archive
  next ← ok_or (checked_add nonce 1) bad_archive
  events ← ext.events
  summary ← from_events events
  ok (record {
    next_nonces = put_nonce signer next scan.next_nonces;
    summaries = scan.summaries ++ summary ∷ [];
  })

module _ ⦃codec : Ss58⦄ (m : LegacyManifest) (treasury deposit : AccountId) where
  abbrev pub scan_signed :
      (number : ℕ) → ArchivedBlock → ArchivedExtrinsic → Option (List ℕ) → Scan → Result Scan
  scan_signed number at ext none scan = ok scan
  scan_signed number at ext (some address) scan = do
    signer ← ok_or (signer_of address) bad_archive
    if not (signer == treasury) && not (signer == deposit)
        then ok scan
        else scan_own m number at ext signer scan

  -- The loop over the extrinsics of a block.
  unfoldable pub scan_block :
      (number : ℕ) → ArchivedBlock → List (Result ArchivedExtrinsic) → Scan → Result Scan
  scan_block number at [] scan = ok scan
  scan_block number at (err e ∷ exts) scan = err e
  scan_block number at (ok ext ∷ exts) scan = do
    next ← scan_signed number at ext ext.address_bytes scan
    scan_block number at exts next

  -- The loop over `count` blocks, from block `number` on.
  unfoldable pub scan_from : Archive → (count number : ℕ) → Scan → Result Scan
  scan_from archive zero number scan = ok scan
  scan_from archive (suc count) number scan = do
    at ← archive.at_block number
    exts ← at.extrinsics
    next ← scan_block number at exts scan
    scan_from archive count (suc number) next

abbrev pub has_hash_at : Option String → String → Bool
has_hash_at none hash = false
has_hash_at (some h) hash = h =? hash

-- `verify_legacy_archive`
unfoldable pub verify_legacy_archive :
    ⦃codec : Ss58⦄
    → Archive
    → PaymentRecord
    → LegacyManifest
    → Result (List EventSummary × ℕ × String)
verify_legacy_archive archive r m = do
  fail_if (not (archive.genesis_hash =? m.genesis_hash)) bad_archive
  (head, hash) ← archive.finalized_head
  horizon ← ok_or (plus_one_of (checked_add m.stopped_at m.maximum_mortality)) bad_archive
  fail_if (not (ltb horizon head)) bad_archive
  fail_if (ltb head m.first_block || ltb 100_000 (head - m.first_block)) bad_archive
  treasury ← parse_ss58 m.treasury
  deposit ← parse_ss58 r.address
  _ ← archive.at_block (m.first_block - 1)
  t ← archive.nonce_at (m.first_block - 1) treasury
  d ← archive.nonce_at (m.first_block - 1) deposit
  let start : Scan = record {
    next_nonces = put_nonce deposit d (put_nonce treasury t no_nonces);
    summaries = [];
  }
  scan ← scan_from m treasury deposit archive (suc head - m.first_block) m.first_block start
  fail_if (not (length scan.summaries == length m.transactions)) bad_archive
  current ← archive.block_hash_at head
  fail_if (not (has_hash_at current hash)) bad_archive
  ok (scan.summaries, head, hash)
