-- ===== src/Store/Ledger.antt =====
-- What `SqliteStore` of src/store.rs promises, with no tables: a record for each payment id and at most
-- one holder for each signer. Its steps are the abstract operations that Refines proves the store's to be.
use buyback.Base.{
  ℕ, ◌+◌, String, true, List, [], ◌∷◌, Option, none, some, ◌=?◌, string_eq, ◌≡◌, ◌≢◌, if◌then◌else◌,
}
use buyback.Chain.{PendingTx}
use buyback.State.{PaymentRecord, BuybackBudget}
use buyback.Error.{ok}
use buyback.Keys.{Ss58}
use buyback.Store.{Reservation, Db, migrated_policy}
use buyback.Recovery.{LegacyManifest}
use buyback.Recovery.Audit.{IsComplete}
use buyback.Store.Recovers.{recovered_record}
use buyback.Store.Sqlite.{get, is_same_job}

-- A holder is a job and the token of its reservation.
pub record Ledger : Type 0 where
  pub records : String → Option PaymentRecord
  pub holder : String → Option (String × String)

-- The holder of a signer in the table of the reservations.
unfoldable pub find_holder : String → List Reservation → Option (String × String)
find_holder signer [] = none
find_holder signer (r ∷ rs) =
    if r.signer =? signer then some (r.job, r.token) else find_holder signer rs

-- The ledger that the tables stand for.
abbrev pub view : Db → Ledger
view db = record { records = get db; holder = λ signer. find_holder signer db.reservations }

abbrev pub put {ℓ} : {A : Type ℓ} → String → A → (String → A) → String → A
put key a old j = if key =? j then a else old j

-- No record has a journal of the signer.
abbrev pub HasNoJournal : String → Ledger → Type 0
HasNoJournal signer l =
    (id : String) (r : PaymentRecord) (p : PendingTx)
    → l.records id ≡ some r
    → r.pending ≡ some p
    → p.signer ≢ signer

-- No signer is held for the job.
abbrev pub HoldsNothing : String → Ledger → Type 0
HoldsNothing job l = (signer token : String) → l.holder signer ≢ some (job, token)

-- No signer is held under the token.
abbrev pub IsFreshToken : String → Ledger → Type 0
IsFreshToken token l = (signer job : String) → l.holder signer ≢ some (job, token)

abbrev pub SameRecords : Ledger → Ledger → Type 0
SameRecords l l' = (id : String) → l'.records id ≡ l.records id

abbrev pub SameHolders : Ledger → Ledger → Type 0
SameHolders l l' = (signer : String) → l'.holder signer ≡ l.holder signer

abbrev pub PutsRecord : PaymentRecord → Ledger → Ledger → Type 0
PutsRecord r l l' = (id : String) → l'.records id ≡ put r.id (some r) l.records id

abbrev pub PutsHolder : String → Option (String × String) → Ledger → Ledger → Type 0
PutsHolder signer h l l' = (s : String) → l'.holder s ≡ put signer h l.holder s

-- How a write of the record `id` may change its journal, from the first to the second.
pub data JournalMoves (id : String) (l l' : Ledger) (before after : Option PendingTx) : Type 0 where
  idle : before ≡ none → after ≡ none → SameHolders l l' → JournalMoves id l l' before after
  opens :
      (p : PendingTx) (token : String)
      → before ≡ none
      → after ≡ some p
      → p.reservation ≡ some token
      → l.holder p.signer ≡ some (id, token)
      → SameHolders l l'
      → JournalMoves id l l' before after
  keeps :
      (p : PendingTx) (token : String)
      → before ≡ some p
      → after ≡ some p
      → p.reservation ≡ some token
      → l.holder p.signer ≡ some (id, token)
      → SameHolders l l'
      → JournalMoves id l l' before after
  closes :
      (p : PendingTx) (token : String)
      → before ≡ some p
      → after ≡ none
      → p.reservation ≡ some token
      → l.holder p.signer ≡ some (id, token)
      → PutsHolder p.signer none l l'
      → JournalMoves id l l' before after

pub data Steps ⦃codec : Ss58⦄ (l l' : Ledger) : Type 0 where
  claims :
      (signer job token : String)
      → l.holder signer ≡ none
      → IsFreshToken token l
      → HasNoJournal signer l
      → SameRecords l l'
      → PutsHolder signer (some (job, token)) l l'
      → Steps l l'
  frees :
      (signer job token : String)
      → l.holder signer ≡ some (job, token)
      → HasNoJournal signer l
      → ((r : PaymentRecord) → l.records job ≡ some r → r.pending ≡ none)
      → SameRecords l l'
      → PutsHolder signer none l l'
      → Steps l l'
  creates :
      (rec : PaymentRecord)
      → l.records rec.id ≡ none
      → rec.pending ≡ none
      → PutsRecord rec l l'
      → SameHolders l l'
      → Steps l l'
  writes :
      (old rec : PaymentRecord) (now : ℕ)
      → l.records rec.id ≡ some old
      → old.version ≡ rec.version
      → is_same_job old rec ≡ true
      → PutsRecord (record rec { version = rec.version + 1; updated_at = now }) l l'
      → JournalMoves rec.id l l' old.pending rec.pending
      → Steps l l'
  decides :
      (id : String) (old next : PaymentRecord) (version : ℕ) (budget : Option BuybackBudget)
      (now : ℕ)
      → l.records id ≡ some old
      → HoldsNothing id l
      → migrated_policy old version budget now ≡ ok next
      → ((j : String) → l'.records j ≡ put id (some next) l.records j)
      → SameHolders l l'
      → Steps l l'
  imports :
      (old : PaymentRecord) (m : LegacyManifest) (now : ℕ)
      → l.records old.id ≡ some old
      → IsComplete old m
      → l.holder old.address ≡ none
      → l.holder m.treasury ≡ none
      → HoldsNothing old.id l
      → HasNoJournal old.address l
      → HasNoJournal m.treasury l
      → PutsRecord (recovered_record old m now) l l'
      → SameHolders l l'
      → Steps l l'

-- Any number of steps.
pub data Runs ⦃codec : Ss58⦄ (l : Ledger) : Ledger → Type 0 where
  starts : Runs l l
  then_steps : {l' l'' : Ledger} → Runs l l' → Steps l' l'' → Runs l l''
