-- ===== src/Store/Tests.antt =====
-- A run of the store of src/store.rs: a payment is inserted, its wallet is reserved, and a journal of
-- that wallet is written. The theorems on the store are applied to it.
use buyback.Base.{ℕ_discrete, String, String-discrete, [], ◌∷◌, some, none, ◌≡◌, refl}
use buyback.State.{
  PaymentRecord, BuybackBudget-discrete, Option-Bool-discrete, JobIdentity-discrete,
}
use buyback.Error.{Error, ok, err}
use buyback.Store.{Db, find_row, has_journal, is_taken, is_owned, set_rows, release, released}
use buyback.Store.Sqlite.{
  reserve, get, insert, update, new_row, check_owner, settle_journal, Option-ℕ-discrete,
}
use buyback.Store.Fence.{IsFenced}
use buyback.Store.History.{
  inserts, reserves, updates, History, opened, then_uses, empty_db, Uses-IsFenced, empty-IsFenced,
  pending_of, one_journal_per_signer,
}
use buyback.Store.Ledger.{view, Runs}
use buyback.Store.Journals.{Since, History-Since}
use buyback.Store.Refines.{History-Runs}
use buyback.Store.Swap.{Succeeds, update-update_conflict, History-Keeps}
use buyback.Fixtures.{payment, journal_of, codec}

abbrev inserted : Db
inserted = record { payments = new_row payment ∷ []; reservations = [] }

abbrev reserved : Db
reserved = record inserted {
  reservations = (record { signer = "555"; job = "a"; token = "t0" }) ∷ [];
}

abbrev written : PaymentRecord
written = record payment { pending = some journal_of }

abbrev written_next : PaymentRecord
written_next = record written { version = 1; updated_at = 60 }

abbrev journaled : Db
journaled = record reserved {
  payments = record (new_row payment) { version = 1; record' = written_next } ∷ [];
}

insert-payment : insert empty_db payment ≡ ok inserted
unfolding insert find_row
insert-payment = refl

reserve_wallet : reserve inserted "555" "a" (some 0) "t0" ≡ ok ("t0", reserved)
unfolding reserve find_row has_journal is_taken String-discrete ℕ_discrete Option-ℕ-discrete
reserve_wallet = refl

write_journal : update reserved written 60 ≡ ok (written_next, journaled)
unfolding update find_row set_rows check_owner settle_journal is_owned String-discrete ℕ_discrete
    BuybackBudget-discrete Option-Bool-discrete JobIdentity-discrete
write_journal = refl

-- The three operations in turn, from empty tables.
run : History empty_db journaled
run =
    then_uses
      (then_uses (then_uses opened (inserts payment refl insert-payment))
        (reserves "555" "a" "t0" "t0" (some 0) reserve_wallet))
      (updates written written_next 60 write_journal)

journal_of_a : pending_of "a" journaled ≡ some journal_of
unfolding find_row String-discrete
journal_of_a = refl

payment_of_a : get reserved "a" ≡ some payment
unfolding get find_row String-discrete
payment_of_a = refl

journal_written : History reserved journaled
journal_written = then_uses opened (updates written written_next 60 write_journal)

one_journal_per_signer_example : ◌≡◌ {A = String} "a" "a"
one_journal_per_signer_example =
    one_journal_per_signer "a" "a" journal_of journal_of run journal_of_a journal_of_a refl

-- The transaction is found dead: the journal is closed, and the wallet is free.
abbrev dead : PaymentRecord
dead = record written_next { pending = none }

abbrev dead_next : PaymentRecord
dead_next = record dead { version = 2; updated_at = 70 }

abbrev resolved : Db
resolved = record {
  payments = record (new_row payment) { version = 2; record' = dead_next } ∷ [];
  reservations = [];
}

close_journal : update journaled dead 70 ≡ ok (dead_next, resolved)
unfolding update find_row set_rows check_owner settle_journal is_owned release released
    String-discrete ℕ_discrete BuybackBudget-discrete Option-Bool-discrete JobIdentity-discrete
close_journal = refl

History-Since_example : Since "a" journal_of journaled resolved
History-Since_example =
    History-Since "a" journal_of (then_uses opened (updates dead dead_next 70 close_journal))
      journal_of_a

History-Runs_example : Runs (view empty_db) (view journaled)
History-Runs_example = History-Runs run

Uses-IsFenced_example : IsFenced inserted
Uses-IsFenced_example = Uses-IsFenced (inserts payment refl insert-payment) empty-IsFenced

-- A second writer still holds version 0 of the payment.
update-update_conflict_example : update journaled written 61 ≡ err (Error.conflict "a")
update-update_conflict_example =
    update-update_conflict reserved written written written_next 60 61 journaled write_journal refl
      refl

History-Keeps_example : (r' : PaymentRecord) × (get journaled "a" ≡ some r') × Succeeds payment r'
History-Keeps_example = History-Keeps "a" payment journal_written payment_of_a
