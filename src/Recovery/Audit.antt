-- ===== src/Recovery/Audit.antt =====
-- What `validate_manifest` guarantees of a manifest that it Accepts.
use buyback.Base.{
  ℕ, ◌≤◌, ◌<◌, String, List, [], ◌∷◌, Option, none, some, true, false, ◌≡◌, ◌≢◌, ◌⊎◌, All, arith,
}
use buyback.Chain.{name, amount}
use buyback.State.{PaymentRecord}
use buyback.Error.{ok}
use buyback.Keys.{Ss58}
use buyback.Recovery.{LegacyManifest, LegacyTransaction}
use buyback.Recovery.Manifest.{
  Seen, nothing_seen, see, has_hash, has_nonce, is_bad_transaction, is_unresolved,
  check_transactions, receipts, check_signers, validate_manifest,
}

abbrev IsAfter : Option (ℕ × ℕ) → LegacyTransaction → Type 0
IsAfter none t = Unit
IsAfter (some (b, i)) t = (b < t.block) ⊎ ((b ≡ t.block) × (i < t.index))

-- Each transaction stands later in the chain than the one before.
abbrev pub IsChronological : Option (ℕ × ℕ) → List LegacyTransaction → Type 0
IsChronological last [] = Unit
IsChronological last (t ∷ ts) = IsAfter last t × IsChronological (some (t.block, t.index)) ts

abbrev IsOtherHash : LegacyTransaction → LegacyTransaction → Type 0
IsOtherHash t t' = t.receipt.tx_hash ≢ t'.receipt.tx_hash

abbrev IsOtherNonce : LegacyTransaction → LegacyTransaction → Type 0
IsOtherNonce t t' = ¬ ((t.signer ≡ t'.signer) × (t.nonce ≡ t'.nonce))

-- Each two transactions are so related.
abbrev pub Pairwise :
    (LegacyTransaction → LegacyTransaction → Type 0) → List LegacyTransaction → Type 0
Pairwise R [] = Unit
Pairwise R (t ∷ ts) = All (R t) ts × Pairwise R ts

-- A transaction of one of both signers, inside the interval, with the receipt of its call.
pub record IsAudited (r : PaymentRecord) (m : LegacyManifest) (t : LegacyTransaction) : Type 0 where
  pub not_before : m.first_block ≤ t.block
  pub not_after : t.block ≤ m.stopped_at
  pub signed_by : (t.signer ≡ m.treasury) ⊎ (t.signer ≡ r.address)
  pub is_named : t.receipt.action ≡ name t.call
  pub has_amount : t.receipt.amount ≡ amount t.call

has_hash-see :
    (t : LegacyTransaction) (seen : Seen) → has_hash t.receipt.tx_hash (see seen t).hashes ≡ true
unfolding has_hash
has_hash-see t seen = ground arith

has_hash-later :
    (h : String) (seen : Seen) (t : LegacyTransaction)
    → has_hash h seen.hashes ≡ true
    → has_hash h (see seen t).hashes ≡ true
unfolding has_hash
has_hash-later h seen t s = ground arith

has_nonce-see :
    (t : LegacyTransaction) (seen : Seen) → has_nonce t.signer t.nonce (see seen t).nonces ≡ true
unfolding has_nonce
has_nonce-see t seen = ground arith

has_nonce-later :
    (who : String) (n : ℕ) (seen : Seen) (t : LegacyTransaction)
    → has_nonce who n seen.nonces ≡ true
    → has_nonce who n (see seen t).nonces ≡ true
unfolding has_nonce
has_nonce-later who n seen t s = ground arith

module _ (r : PaymentRecord) (m : LegacyManifest) where
  abbrev Accepts : Seen → List LegacyTransaction → Type 0
  Accepts seen ts = check_transactions r m seen ts ≡ ok tt

  Accepts-head :
      (seen : Seen) (t : LegacyTransaction) (ts : List LegacyTransaction)
      → Accepts seen (t ∷ ts)
      → (is_bad_transaction r m seen t ≡ false) × Accepts (see seen t) ts
  unfolding check_transactions
  Accepts-head seen t ts h = ground arith

  good-IsAudited :
      (seen : Seen) (t : LegacyTransaction)
      → is_bad_transaction r m seen t ≡ false
      → IsAudited r m t
  unfolding is_bad_transaction
  good-IsAudited seen t h = ground arith

  good-IsAfter :
      (seen : Seen) (t : LegacyTransaction)
      → is_bad_transaction r m seen t ≡ false
      → IsAfter seen.last t
  unfolding is_bad_transaction
  good-IsAfter seen t h = ground arith

  good-hash :
      (seen : Seen) (t : LegacyTransaction)
      → is_bad_transaction r m seen t ≡ false
      → has_hash t.receipt.tx_hash seen.hashes ≡ false
  unfolding is_bad_transaction
  good-hash seen t h = ground arith

  good-nonce :
      (seen : Seen) (t : LegacyTransaction)
      → is_bad_transaction r m seen t ≡ false
      → has_nonce t.signer t.nonce seen.nonces ≡ false
  unfolding is_bad_transaction
  good-nonce seen t h = ground arith

  Accepts-IsAudited :
      (seen : Seen) (ts : List LegacyTransaction) → Accepts seen ts → All (IsAudited r m) ts
  Accepts-IsAudited seen [] h = tt
  Accepts-IsAudited seen (t ∷ ts) h =
      let (good, rest) = Accepts-head seen t ts h in
      (good-IsAudited seen t good, Accepts-IsAudited (see seen t) ts rest)

  Accepts-IsChronological :
      (seen : Seen) (ts : List LegacyTransaction) → Accepts seen ts → IsChronological seen.last ts
  Accepts-IsChronological seen [] h = tt
  Accepts-IsChronological seen (t ∷ ts) h =
      let (good, rest) = Accepts-head seen t ts h in
      (good-IsAfter seen t good, Accepts-IsChronological (see seen t) ts rest)

  seen-hash :
      (seen : Seen) (t : LegacyTransaction) (ts : List LegacyTransaction)
      → Accepts seen ts
      → has_hash t.receipt.tx_hash seen.hashes ≡ true
      → All (IsOtherHash t) ts
  seen-hash seen t [] h s = tt
  seen-hash seen t (t' ∷ ts) h s =
      let (good, rest) = Accepts-head seen t' ts h in
      let other : IsOtherHash t t' = λ e. ground (arith, good-hash seen t' good) in
      (other, seen-hash (see seen t') t ts rest (has_hash-later t.receipt.tx_hash seen t' s))

  Accepts-hashes :
      (seen : Seen) (ts : List LegacyTransaction) → Accepts seen ts → Pairwise IsOtherHash ts
  Accepts-hashes seen [] h = tt
  Accepts-hashes seen (t ∷ ts) h =
      let (good, rest) = Accepts-head seen t ts h in
      (seen-hash (see seen t) t ts rest (has_hash-see t seen), Accepts-hashes (see seen t) ts rest)

  seen-nonce :
      (seen : Seen) (t : LegacyTransaction) (ts : List LegacyTransaction)
      → Accepts seen ts
      → has_nonce t.signer t.nonce seen.nonces ≡ true
      → All (IsOtherNonce t) ts
  seen-nonce seen t [] h s = tt
  seen-nonce seen t (t' ∷ ts) h s =
      let (good, rest) = Accepts-head seen t' ts h in
      let other : IsOtherNonce t t' = λ e. ground (arith, good-nonce seen t' good) in
      (other, seen-nonce (see seen t') t ts rest (has_nonce-later t.signer t.nonce seen t' s))

  Accepts-nonces :
      (seen : Seen) (ts : List LegacyTransaction) → Accepts seen ts → Pairwise IsOtherNonce ts
  Accepts-nonces seen [] h = tt
  Accepts-nonces seen (t ∷ ts) h =
      let (good, rest) = Accepts-head seen t ts h in
      (
        seen-nonce (see seen t) t ts rest (has_nonce-see t seen),
        Accepts-nonces (see seen t) ts rest,
      )

-- A manifest that accounts for every transaction of a record that has none left open.
pub record IsComplete (r : PaymentRecord) (m : LegacyManifest) : Type 0 where
  pub same_job : (r.id ≡ m.job) × (r.version ≡ m.version)
  pub unresolved_free : (r.identity ≡ none) × (r.pending ≡ none) × (r.quarantined ≡ none)
  pub two_signers : m.treasury ≢ r.address
  pub same_receipts : receipts m.transactions ≡ r.txs
  pub all_audited : All (IsAudited r m) m.transactions
  pub in_order : IsChronological none m.transactions
  pub distinct_hashes : Pairwise IsOtherHash m.transactions
  pub distinct_nonces : Pairwise IsOtherNonce m.transactions

module _ ⦃codec : Ss58⦄ (r : PaymentRecord) (m : LegacyManifest)
    (h : validate_manifest r m ≡ ok tt) where
  Accepts-validate : Accepts r m nothing_seen m.transactions
  unfolding validate_manifest
  Accepts-validate = ground arith

  checks-validate :
      (r.id ≡ m.job)
      × (r.version ≡ m.version)
      × (is_unresolved r m ≡ false)
      × (check_signers r m ≡ ok tt)
      × (receipts m.transactions ≡ r.txs)
  unfolding validate_manifest
  checks-validate = ground arith

two_signers-check_signers :
    ⦃codec : Ss58⦄ (r : PaymentRecord) (m : LegacyManifest)
    → check_signers r m ≡ ok tt
    → m.treasury ≢ r.address
unfolding check_signers
two_signers-check_signers r m h = λ e. ground arith

free-is_unresolved :
    (r : PaymentRecord) (m : LegacyManifest)
    → is_unresolved r m ≡ false
    → (r.identity ≡ none) × (r.pending ≡ none) × (r.quarantined ≡ none)
unfolding is_unresolved
free-is_unresolved r m h = ground arith

-- A manifest that is accepted is complete: the record has no open transaction and no identity, its
-- receipts are those of the manifest in order, and the transactions are of one of the two signers, in the
-- interval, in the order of the chain, with different hashes and different nonces of a signer.
pub validate_manifest-IsComplete :
    ⦃codec : Ss58⦄ (r : PaymentRecord) (m : LegacyManifest)
    → validate_manifest r m ≡ ok tt
    → IsComplete r m
validate_manifest-IsComplete r m h =
    let (id, version, unresolved, signers, same) = checks-validate r m h in
    let accepted = Accepts-validate r m h in
    record {
      same_job = (id, version);
      unresolved_free = free-is_unresolved r m unresolved;
      two_signers = two_signers-check_signers r m signers;
      same_receipts = same;
      all_audited = Accepts-IsAudited r m nothing_seen m.transactions accepted;
      in_order = Accepts-IsChronological r m nothing_seen m.transactions accepted;
      distinct_hashes = Accepts-hashes r m nothing_seen m.transactions accepted;
      distinct_nonces = Accepts-nonces r m nothing_seen m.transactions accepted;
    }
