-- ===== src/Store/Swap.antt =====
-- Compare-and-swap on the version (src/store.rs): two engines that share a store cannot both advance
-- a record, and the execution identity and budget of a job are frozen.
use buyback.Base.{
  ℕ, ◌+◌, ◌≤◌, String, Option, none, some, string_eq, ◌≡◌, ◌≢◌, refl, arith, String-discrete, ◌∙◌,
  sym, Bool, Bool-cases, inl, inr, ◌==◌,
}
use mathlib.Core.Path.{subst}
use buyback.State.{PaymentRecord, BuybackBudget}
use buyback.Recovery.{LegacyManifest}
use buyback.Store.Recovers.{Recovers, Recovers-find_row, recover_legacy-Recovers, recovered_record}
use buyback.Error.{Error, ok, err}
use buyback.Keys.{Ss58}
use buyback.Store.{Db}
use buyback.Store.Update.{
  Updates-find_row, update-Updates, insert-find_row, migrate-rows, migrated_policy-open,
}
use buyback.Store.Sqlite.{get, reserve, cancel_preparation, insert, update, migrate_legacy_policy}
use buyback.Store.History.{
  Uses, reserves, cancels, inserts, updates, migrates, recovers, History, opened, then_uses,
}

-- Of two writers that have read one version of a record, the second is refused with a conflict.
pub update-update_conflict :
    (db : Db) (rec rec' next : PaymentRecord) (now now' : ℕ) (db' : Db)
    → update db rec now ≡ ok (next, db')
    → rec'.id ≡ rec.id
    → rec'.version ≡ rec.version
    → update db' rec' now' ≡ err (Error.conflict rec'.id)
unfolding update
update-update_conflict db rec rec' next now now' db' h i v =
    let u = update-Updates db rec now next db' h in
    ground (arith, Updates-find_row db rec now next db' u rec'.id, u.result)

-- After a successful update the store holds the record that it returned, which is the given one,
-- one version on and dated, and every other job is as before.
pub get-update :
    (db : Db) (rec next : PaymentRecord) (now : ℕ) (db' : Db)
    → update db rec now ≡ ok (next, db')
    → (get db' rec.id ≡ some next)
      × (next ≡ record rec { version = rec.version + 1; updated_at = now })
      × ((j : String) → rec.id ≢ j → get db' j ≡ get db j)
unfolding get
get-update db rec next now db' h =
    let u = update-Updates db rec now next db' h in
    (
      ground (arith, Updates-find_row db rec now next db' u rec.id),
      u.result,
      λ j n. ground (arith, Updates-find_row db rec now next db' u j),
    )

-- The policy of a job: what may be bought, and whether it must be.
pub record Policy : Type 0 where
  pub budget : Option BuybackBudget
  pub required : Option Bool

abbrev pub policy : PaymentRecord → Policy
policy r = record { budget = r.buyback_budget; required = r.auto_required }

-- `r'` has taken the place of `r`: later, with the identity of `r` if it has one, and with the policy of
-- `r` if that is decided.
pub record Succeeds (r r' : PaymentRecord) : Type 0 where
  pub later : r.version ≤ r'.version
  pub identity : r.identity ≢ none → r'.identity ≡ r.identity
  pub frozen : r.auto_required ≢ none → policy r' ≡ policy r

Succeeds-refl : (r : PaymentRecord) → Succeeds r r
Succeeds-refl r = record { later = omega arith; identity = λ _. refl; frozen = λ _. refl }

Succeeds-trans : (r s t : PaymentRecord) → Succeeds r s → Succeeds s t → Succeeds r t
Succeeds-trans r s t a b = record {
  later = omega (arith, a.later, b.later);
  identity = λ n. b.identity (λ e. n (sym (a.identity n) ∙ e)) ∙ a.identity n;
  frozen = λ n. b.frozen (λ e. n (ground (arith, a.frozen n, e))) ∙ a.frozen n;
}

-- The record of a job in `db'` has taken the place of the one in `db`.
abbrev Keeps : String → Db → Db → Type 0
Keeps id db db' =
    (r : PaymentRecord)
    → get db id ≡ some r
    → (r' : PaymentRecord) × (get db' id ≡ some r') × Succeeds r r'

update-Keeps :
    (db : Db) (rec next : PaymentRecord) (now : ℕ) (db' : Db) (id : String)
    → update db rec now ≡ ok (next, db')
    → Keeps id db db'
unfolding get
update-Keeps db rec next now db' id h r hr =
    let u = update-Updates db rec now next db' h in
    elim (String-discrete rec.id id) [
      | yes e ↦ (
        next,
        ground (arith, Updates-find_row db rec now next db' u id),
        record {
          later = ground (arith, u.found, u.current, u.result);
          identity = λ _. ground (arith, u.found, u.same_job, u.result);
          frozen = λ _. ground (arith, u.found, u.same_job, u.result);
        },
      )
      | no n ↦ (r, ground (arith, Updates-find_row db rec now next db' u id), Succeeds-refl r)
    ]

insert-Keeps :
    (db : Db) (rec : PaymentRecord) (db' : Db) (id : String)
    → insert db rec ≡ ok db'
    → Keeps id db db'
unfolding get insert
insert-Keeps db rec db' id h r hr =
    (r, ground (arith, insert-find_row db rec db' h id), Succeeds-refl r)

migrate-Keeps :
    ⦃codec : Ss58⦄ (db : Db) (i : String) (version : ℕ) (budget : Option BuybackBudget) (now : ℕ)
    (next : PaymentRecord) (db' : Db) (id : String)
    → migrate_legacy_policy db i version budget now ≡ ok (next, db')
    → Keeps id db db'
unfolding get
migrate-Keeps db i version budget now next db' id h r hr =
    let (old, found, valid, rows) = migrate-rows db i version budget now next db' h id in
    let facts = migrated_policy-open old.record' version budget now next valid in
    elim (String-discrete i id) [
      | yes e ↦ (
        next,
        ground (arith, rows),
        record {
          later = ground (arith, found, facts);
          identity = λ _. ground (arith, found, facts);
          frozen = λ n. absurd (n (ground (arith, found, facts)));
        },
      )
      | no n ↦ (r, ground (arith, rows), Succeeds-refl r)
    ]

recovery-Keeps :
    (db db' : Db) (m : LegacyManifest) (now : ℕ) (id : String)
    → Recovers db m now db'
    → Keeps id db db'
unfolding get
recovery-Keeps db db' m now id done r hr =
    let rows = Recovers-find_row db db' m now done id in
    let old = done.row.record' in
    elim (String-discrete m.job id) [
      | no n ↦ (r, ground (arith, rows), Succeeds-refl r)
      | yes e ↦ elim (Bool-cases (done.row.version == old.version)) [
        | inr kept ↦ (r, ground (arith, rows, done.found), Succeeds-refl r)
        | inl written ↦
            let same : old ≡ r = ground (arith, done.found, e) in
            (
              recovered_record old m now,
              ground (arith, rows),
              subst (λ r. Succeeds r (recovered_record old m now)) same
                  (record {
                    later = omega arith;
                    identity = λ n. absurd (n done.is_complete.unresolved_free.0);
                    frozen = λ n.
                        let (required, budget) = done.same_policy n in
                        ground (arith, required, budget);
                  }),
            )
      ]
    ]

-- What one operation of the store does to the record of a job.
Uses-Keeps : ⦃codec : Ss58⦄ {db db' : Db} → Uses db db' → (id : String) → Keeps id db db'
unfolding get reserve cancel_preparation
Uses-Keeps (reserves signer job token t version h) id r hr = (r, ground arith, Succeeds-refl r)
Uses-Keeps (cancels signer job token h) id r hr = (r, ground arith, Succeeds-refl r)
Uses-Keeps {db = db} {db' = db'} (inserts rec n h) id r hr = insert-Keeps db rec db' id h r hr
Uses-Keeps {db = db} {db' = db'} (updates rec next now h) id r hr =
    update-Keeps db rec next now db' id h r hr
Uses-Keeps {db = db} {db' = db'} (migrates i version budget now next h) id r hr =
    migrate-Keeps db i version budget now next db' id h r hr
Uses-Keeps {db' = db'} (recovers x x' archive m now report start h end) id r hr =
    subst (λ db. Keeps id db db') start
      (subst (λ db'. Keeps id x.tables db') end
        (recovery-Keeps x.tables x'.tables m now id
          (recover_legacy-Recovers x archive m now report x' h)))
      r hr

-- Over any use of the store, recoveries of legacy payments included, a job is never lost, its version never
-- falls, its identity never changes once it has one, and its budget and policy are frozen once the policy is
-- decided.
pub History-Keeps :
    ⦃codec : Ss58⦄ {db db' : Db} (id : String) (r : PaymentRecord)
    → History db db'
    → get db id ≡ some r
    → (r' : PaymentRecord) × (get db' id ≡ some r') × Succeeds r r'
History-Keeps id r opened h = (r, h, Succeeds-refl r)
History-Keeps id r (then_uses run step) h =
    let (s, hs, a) = History-Keeps id r run h in
    let (t, ht, b) = Uses-Keeps step id s hs in (t, ht, Succeeds-trans r s t a b)
