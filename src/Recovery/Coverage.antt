-- ===== src/Recovery/Coverage.antt =====
-- What the scan of the archive guarantees: the manifest explains every extrinsic of both signers.
use buyback.Base.{
  ℕ, zero, suc, ◌≡◌, List, [], ◌∷◌, ◌++◌, Option, none, some, true, false, ◌&&◌, not, ◌==◌, refl,
  string_eq, arith, length, length-append, checked_add, inl, inr, Bool-cases,
}
use buyback.Chain.{AccountId, EventSummary}
use buyback.Chain.Events.{from_events, signer_of}
use buyback.Error.{Result, ok, err, fail_if, ok_or, bind_ok, check_ok, fail_if_ok, ok_or_ok}
use buyback.Keys.{Ss58, ss58}
use buyback.Recovery.{LegacyManifest, LegacyTransaction}
use buyback.Recovery.Archive.{
  ArchivedExtrinsic, ArchivedBlock, Archive, Scan, bad_archive, unexplained_activity, same_bytes,
  get_transaction, is_unexplained, scan_own, scan_signed, scan_block, scan_from,
}

-- An extrinsic in its block.
pub record Found : Type 0 where
  pub number : ℕ
  pub at : ArchivedBlock
  pub ext : ArchivedExtrinsic

-- The extrinsics of a block, all of them read.
abbrev pub InBlock : ℕ → ArchivedBlock → List (Result ArchivedExtrinsic) → List Found → Type 0
InBlock number at [] fs = fs ≡ []
InBlock number at (err e ∷ exts) fs = ⊥
InBlock number at (ok ext ∷ exts) [] = ⊥
InBlock number at (ok ext ∷ exts) (f ∷ fs) =
    (f ≡ record { number = number; at = at; ext = ext }) × InBlock number at exts fs

-- The extrinsics of `count` blocks of the archive from block `number` on, in order.
pub data Holds (archive : Archive) : (count number : ℕ) → List Found → Type 0 where
  no_block : (number : ℕ) → Holds archive zero number []
  next_block :
      (count number : ℕ) (at : ArchivedBlock) (exts : List (Result ArchivedExtrinsic))
      (fs rest : List Found)
      → archive.at_block number ≡ ok at
      → at.extrinsics ≡ ok exts
      → InBlock number at exts fs
      → Holds archive count (suc number) rest
      → Holds archive (suc count) number (fs ++ rest)

-- The transaction of the manifest that stands for an extrinsic of a signer.
pub record Explains ⦃codec : Ss58⦄ (t : LegacyTransaction) (f : Found) (signer : AccountId)
    : Type 0 where
  pub same_place : (t.block ≡ f.number) × (t.index ≡ f.ext.index)
  pub same_signer : t.signer ≡ ss58 signer
  pub same_nonce : f.ext.nonce ≡ some t.nonce
  pub same_hashes : (t.receipt.tx_hash ≡ f.ext.hash) × (t.receipt.block_hash ≡ f.at.block_hash)
  pub same_call : f.at.call_data t.call ≡ ok f.ext.call_data_bytes

-- Of each extrinsic of the signers, in order, the manifest has the transaction that stands for it, from the
-- `i`-th to the `j`-th; the other extrinsics are unsigned or of a known other signer.
pub data Accounts ⦃codec : Ss58⦄ (m : LegacyManifest) (treasury deposit : AccountId)
    : ℕ → List Found → ℕ → Type 0 where
  finished : (i : ℕ) → Accounts m treasury deposit i [] i
  unsigned :
      (i j : ℕ) (f : Found) (fs : List Found)
      → f.ext.address_bytes ≡ none
      → Accounts m treasury deposit i fs j
      → Accounts m treasury deposit i (f ∷ fs) j
  stranger :
      (i j : ℕ) (f : Found) (fs : List Found) (bytes : List ℕ) (who : AccountId)
      → f.ext.address_bytes ≡ some bytes
      → signer_of bytes ≡ some who
      → (who == treasury) ≡ false
      → (who == deposit) ≡ false
      → Accounts m treasury deposit i fs j
      → Accounts m treasury deposit i (f ∷ fs) j
  own :
      (i j : ℕ) (f : Found) (fs : List Found) (bytes : List ℕ) (who : AccountId)
      (t : LegacyTransaction)
      → f.ext.address_bytes ≡ some bytes
      → signer_of bytes ≡ some who
      → get_transaction m.transactions i ≡ some t
      → Explains t f who
      → Accounts m treasury deposit (suc i) fs j
      → Accounts m treasury deposit i (f ∷ fs) j

bytes_same : (xs ys : List ℕ) → same_bytes xs ys ≡ true → xs ≡ ys
unfolding same_bytes
bytes_same [] [] h = refl
bytes_same [] (y ∷ ys) h = absurd cc
bytes_same (x ∷ xs) [] h = absurd cc
bytes_same (x ∷ xs) (y ∷ ys) h = ground (arith, bytes_same xs ys)

explained :
    ⦃codec : Ss58⦄ (t : LegacyTransaction) (f : Found) (signer : AccountId) (nonce : ℕ)
    (next : Option ℕ) (data' : List ℕ)
    → is_unexplained t f.number f.at f.ext signer nonce next ≡ false
    → not (same_bytes data' f.ext.call_data_bytes) ≡ false
    → f.ext.nonce ≡ some nonce
    → f.at.call_data t.call ≡ ok data'
    → Explains t f signer
unfolding is_unexplained
explained t f signer nonce next data' h b n c =
    ground (arith, bytes_same data' f.ext.call_data_bytes)

pushed :
    (nonces : AccountId → Option ℕ) (summaries : List EventSummary) (summary : EventSummary)
    (scan' : Scan)
    → ok (record { next_nonces = nonces; summaries = summaries ++ summary ∷ [] }) ≡ ok scan'
    → length scan'.summaries ≡ suc (length summaries)
pushed nonces summaries summary scan' h =
    let e : summaries ++ summary ∷ [] ≡ scan'.summaries = cc in
    rw (← e) (omega (arith, length-append summaries (summary ∷ [])))

scan_own-Explains :
    ⦃codec : Ss58⦄ (m : LegacyManifest) (f : Found) (signer : AccountId) (scan scan' : Scan)
    → scan_own m f.number f.at f.ext signer scan ≡ ok scan'
    → (t : LegacyTransaction) × (get_transaction m.transactions (length scan.summaries) ≡ some t)
      × Explains t f signer
      × (length scan'.summaries ≡ suc (length scan.summaries))
unfolding scan_own
scan_own-Explains m f signer scan scan' h =
    let (t, found, h1) =
      bind_ok (ok_or (get_transaction m.transactions (length scan.summaries)) unexplained_activity)
        _ _ h in
    let (nonce, has_nonce, h2) = bind_ok (ok_or f.ext.nonce bad_archive) _ _ h1 in
    let (same, h3) =
      check_ok
        (fail_if (is_unexplained t f.number f.at f.ext signer nonce (scan.next_nonces signer))
          bad_archive)
        _ _ h2 in
    let (call_data, has_call, hc) = bind_ok (f.at.call_data t.call) _ _ h3 in
    let (bytes, h4) =
      check_ok (fail_if (not (same_bytes call_data f.ext.call_data_bytes)) bad_archive) _ _ hc in
    let (next, _, h5) = bind_ok (ok_or (checked_add nonce 1) bad_archive) _ _ h4 in
    let (events, _, h6) = bind_ok f.ext.events _ _ h5 in
    let (summary, _, h7) = bind_ok (from_events events) _ _ h6 in
    (
      t,
      ok_or_ok _ _ _ found,
      explained t f signer nonce (scan.next_nonces signer) call_data (fail_if_ok _ _ same)
          (fail_if_ok _ _ bytes) (ok_or_ok _ _ _ has_nonce) has_call,
      pushed _ scan.summaries summary scan' h7,
    )

module _ ⦃codec : Ss58⦄ (m : LegacyManifest) (treasury deposit : AccountId) where
  abbrev AccountsOf : Scan → List Found → Scan → Type 0
  AccountsOf scan fs scan' =
      Accounts m treasury deposit (length scan.summaries) fs (length scan'.summaries)

  AccountsOf-append :
      (i j k : ℕ) (fs gs : List Found)
      → Accounts m treasury deposit i fs j
      → Accounts m treasury deposit j gs k
      → Accounts m treasury deposit i (fs ++ gs) k
  AccountsOf-append i j k fs gs (finished _) b = b
  AccountsOf-append i j k fs gs (unsigned _ _ f rest e a) b =
      unsigned i k f (rest ++ gs) e (AccountsOf-append i j k rest gs a b)
  AccountsOf-append i j k fs gs (stranger _ _ f rest bytes who e s t d a) b =
      stranger i k f (rest ++ gs) bytes who e s t d (AccountsOf-append i j k rest gs a b)
  AccountsOf-append i j k fs gs (own _ _ f rest bytes who t e s g x a) b =
      own i k f (rest ++ gs) bytes who t e s g x (AccountsOf-append (suc i) j k rest gs a b)

  AccountsOf-one :
      (f : Found) (fs : List Found) (address : Option (List ℕ)) (scan next scan' : Scan)
      → f.ext.address_bytes ≡ address
      → scan_signed m treasury deposit f.number f.at f.ext address scan ≡ ok next
      → AccountsOf next fs scan'
      → AccountsOf scan (f ∷ fs) scan'
  AccountsOf-one f fs none scan next scan' e h a =
      let same : scan ≡ next = cc in unsigned _ _ f fs e (rw same a)
  AccountsOf-one f fs (some bytes) scan next scan' e h a =
      let (who, s, h1) = bind_ok (ok_or (signer_of bytes) bad_archive) _ _ h in
      elim (Bool-cases (not (who == treasury) && not (who == deposit))) [
        | inl no_one ↦
            let same : scan ≡ next = ground arith in
            stranger _ _ f fs bytes who e (ok_or_ok _ _ _ s) (ground arith) (ground arith)
              (rw same a)
        | inr one ↦
            let done : scan_own m f.number f.at f.ext who scan ≡ ok next = ground arith in
            let (t, found, explains, more) = scan_own-Explains m f who scan next done in
            own _ _ f fs bytes who t e (ok_or_ok _ _ _ s) found explains (rw (← more) a)
      ]

  scan_block-Accounts :
      (number : ℕ) (at : ArchivedBlock) (exts : List (Result ArchivedExtrinsic)) (scan scan' : Scan)
      → scan_block m treasury deposit number at exts scan ≡ ok scan'
      → (fs : List Found) × InBlock number at exts fs × AccountsOf scan fs scan'
  unfolding scan_block
  scan_block-Accounts number at [] scan scan' h =
      let same : scan ≡ scan' = cc in ([], refl, rw same (finished _))
  scan_block-Accounts number at (err e ∷ exts) scan scan' h = absurd cc
  scan_block-Accounts number at (ok ext ∷ exts) scan scan' h =
      let (next, step, rest) =
        bind_ok (scan_signed m treasury deposit number at ext ext.address_bytes scan) _ _ h in
      let (fs, found, a) = scan_block-Accounts number at exts next scan' rest in
      let f : Found = record { number = number; at = at; ext = ext } in
      (f ∷ fs, (refl, found), AccountsOf-one f fs ext.address_bytes scan next scan' refl step a)

  pub scan_from-Accounts :
      (archive : Archive) (count number : ℕ) (scan scan' : Scan)
      → scan_from m treasury deposit archive count number scan ≡ ok scan'
      → (fs : List Found) × Holds archive count number fs × AccountsOf scan fs scan'
  unfolding scan_from
  scan_from-Accounts archive zero number scan scan' h =
      let same : scan ≡ scan' = cc in ([], no_block number, rw same (finished _))
  scan_from-Accounts archive (suc count) number scan scan' h =
      let (at, read, h1) = bind_ok (archive.at_block number) _ _ h in
      let (exts, read', h2) = bind_ok at.extrinsics _ _ h1 in
      let (next, step, h3) = bind_ok (scan_block m treasury deposit number at exts scan) _ _ h2 in
      let (fs, found, a) = scan_block-Accounts number at exts scan next step in
      let (rest, holds, b) = scan_from-Accounts archive count (suc number) next scan' h3 in
      (
        fs ++ rest,
        next_block count number at exts fs rest read read' found holds,
        AccountsOf-append _ _ _ fs rest a b,
      )
