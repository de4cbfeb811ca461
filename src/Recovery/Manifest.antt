-- ===== src/Recovery/Manifest.antt =====
-- `validate_manifest` of src/recovery.rs: what the record and the manifest must show before any read of
-- the chain. The sets of hashes and nonces seen are lists.
use buyback.Base.{
  ℕ, String, List, [], ◌∷◌, Option, none, some, Bool, true, false, ◌&&◌, ◌||◌, not, ◌=?◌, ◌==◌, ltb,
  string_eq, is_some, length, trim, utf8_len,
}
use buyback.Chain.{TxRef, name, amount}
use buyback.State.{PaymentState, PaymentRecord, payment_state_eq, option_bool_eq, budget_eq}
use buyback.Error.{Error, Result, ok, ◌>>=◌, ◌>>◌, fail_if}
use buyback.Keys.{Ss58, ss58, parse_ss58}
use buyback.Store.{is_fresh, validate_budget}
use buyback.Recovery.{LegacyManifest, LegacyTransaction, tx_refs_eq}

-- `bad()`
abbrev pub no_evidence : Error
no_evidence =
    Error.store "legacy recovery requires a complete audited manifest and unresolved-free record"

-- The stages that a payment may be imported in.
abbrev pub is_importable : PaymentState → Option PaymentState → Bool
is_importable PaymentState.pending _ = true
is_importable PaymentState.detected _ = true
is_importable PaymentState.funded _ = true
is_importable PaymentState.swept _ = true
is_importable PaymentState.failed (some PaymentState.funded) = true
is_importable PaymentState.failed (some PaymentState.swept) = true
is_importable _ _ = false

-- A policy that the record has already and the manifest does not repeat.
abbrev pub is_other_policy : PaymentRecord → LegacyManifest → Bool
is_other_policy r m =
    is_some r.auto_required
    && (not (r.auto_required =? some (is_some m.budget)) || not (r.buyback_budget =? m.budget))

-- What the record may not show.
unfoldable pub is_unresolved : PaymentRecord → LegacyManifest → Bool
is_unresolved r m =
    is_some r.identity
    || is_other_policy r m
    || is_some r.pending
    || is_some r.quarantined
    || r.notified
    || not (is_importable r.state r.failed_from)

-- What the manifest may not show.
unfoldable pub is_unaudited : PaymentRecord → LegacyManifest → Bool
is_unaudited r m =
    (length m.transactions == 0 && not (is_fresh r.state))
    || ltb 4096 (length m.transactions)
    || m.first_block == 0
    || ltb m.stopped_at m.first_block
    || m.maximum_mortality == 0
    || ltb 65_536 m.maximum_mortality
    || not m.all_old_emitters_stopped_no_immortal_signatures
    || ltb (utf8_len (trim m.operator_attestation)) 16
    || ltb 4096 (utf8_len m.operator_attestation)

-- A payment that nothing was sent for, with a trace of a transaction.
unfoldable pub is_touched : PaymentRecord → LegacyManifest → Bool
is_touched r m =
    is_fresh r.state
    && (not (length m.transactions == 0)
        || not (r.funded_tao == 0)
        || not (r.swept_alpha == 0)
        || not (length r.swept_positions == 0)
        || not (r.consolidated == 0)
        || r.dust_returned
        || is_some r.buyback
        || r.buyback_done)

-- The addresses of both signers, each in its one spelling.
unfoldable pub check_signers : ⦃codec : Ss58⦄ → PaymentRecord → LegacyManifest → Result (Unit {0})
check_signers r m = do
  treasury ← parse_ss58 m.treasury
  deposit ← parse_ss58 r.address
  _ ← parse_ss58 m.treasury_hotkey
  fail_if
      (treasury == deposit || not (ss58 treasury =? m.treasury) || not (ss58 deposit =? r.address))
      no_evidence

-- What the loop over the transactions has seen.
pub record Seen : Type 0 where
  pub last : Option (ℕ × ℕ)
  pub hashes : List String
  pub nonces : List (String × ℕ)

unfoldable pub has_hash : String → List String → Bool
has_hash h [] = false
has_hash h (h' ∷ hs) = h' =? h || has_hash h hs

unfoldable pub has_nonce : String → ℕ → List (String × ℕ) → Bool
has_nonce s n [] = false
has_nonce s n ((s', n') ∷ ns) = (s' =? s && n' == n) || has_nonce s n ns

-- `last.is_some_and(|p| p >= (t.block, t.index))`
abbrev pub is_late : Option (ℕ × ℕ) → ℕ → ℕ → Bool
is_late none block index = false
is_late (some (b, i)) block index = ltb block b || (block == b && not (ltb i index))

-- A transaction out of the interval, out of order, seen before, of another signer, or with a
-- receipt of another call.
unfoldable pub is_bad_transaction : PaymentRecord → LegacyManifest → Seen → LegacyTransaction → Bool
is_bad_transaction r m seen t =
    ltb t.block m.first_block
    || ltb m.stopped_at t.block
    || is_late seen.last t.block t.index
    || has_hash t.receipt.tx_hash seen.hashes
    || has_nonce t.signer t.nonce seen.nonces
    || (not (t.signer =? m.treasury) && not (t.signer =? r.address))
    || not (t.receipt.action =? name t.call)
    || not (t.receipt.amount == amount t.call)

abbrev pub see : Seen → LegacyTransaction → Seen
see seen t = record {
  last = some (t.block, t.index);
  hashes = t.receipt.tx_hash ∷ seen.hashes;
  nonces = (t.signer, t.nonce) ∷ seen.nonces;
}

abbrev pub nothing_seen : Seen
nothing_seen = record { last = none; hashes = []; nonces = [] }

-- The loop over the transactions.
unfoldable pub check_transactions :
    PaymentRecord → LegacyManifest → Seen → List LegacyTransaction → Result (Unit {0})
check_transactions r m seen [] = ok tt
check_transactions r m seen (t ∷ ts) =
    fail_if (is_bad_transaction r m seen t) no_evidence >> check_transactions r m (see seen t) ts

-- `m.transactions.iter().map(|t| &t.receipt)`
unfoldable pub receipts : List LegacyTransaction → List TxRef
receipts [] = []
receipts (t ∷ ts) = t.receipt ∷ receipts ts

-- `validate_manifest`
unfoldable pub validate_manifest :
    ⦃codec : Ss58⦄ → PaymentRecord → LegacyManifest → Result (Unit {0})
validate_manifest r m = do
  fail_if (not (r.id =? m.job) || not (r.version == m.version)) (Error.conflict m.job)
  fail_if (is_unresolved r m || is_unaudited r m) no_evidence
  fail_if (is_touched r m) no_evidence
  check_signers r m
  validate_budget m.budget
  check_transactions r m nothing_seen m.transactions
  fail_if (not (receipts m.transactions =? r.txs)) no_evidence
