-- ===== src/Store/Lists.antt =====
-- What the lists of the two stores (src/store.rs) contain, and their order.
use buyback.Base.{ℕ, List, [], ◌∷◌, map, ◌≡◌, refl, ap, Bool-cases, inl, inr}
use buyback.Base.Sort.{sort_by, IsSorted, sort_by-perm, sort_by-IsSorted}
use buyback.Base.Select.{select, select-cons, select-Perm, select-IsSorted}
use mathlib.Core.List.{Perm}
use mathlib.Core.List.Perm
use buyback.State.{PaymentState}
use buyback.Store.{Row, Db}
use buyback.Store.Sqlite.{list, is_wanted, wanted_records, signed_order}
use buyback.Store.File.{Files, contains_state, kept_records, list_files}

module _ (states : List PaymentState) where
  -- The rows whose state is among the wanted ones.
  abbrev pub wanted_rows : List Row → List Row
  wanted_rows = select (λ row. is_wanted states row.state)

  -- The files whose record is in one of the wanted states.
  abbrev pub wanted_files : Files → Files
  wanted_files = select (λ p. contains_state states p.1.state)

  wanted_records-select :
      (rows : List Row) → wanted_records states rows ≡ map (λ row. row.record') (wanted_rows rows)
  wanted_records-select [] = refl
  wanted_records-select (row ∷ rows) = elim (Bool-cases (is_wanted states row.state)) [
    | inl e ↦
        rw (select-cons (λ r. is_wanted states r.state) row rows, e)
          (ap (λ rest. row.record' ∷ rest) (wanted_records-select rows))
    | inr e ↦
        rw (select-cons (λ r. is_wanted states r.state) row rows, e) (wanted_records-select rows)
  ]

  pub kept_records-select :
      (files : Files) → kept_records states files ≡ map (λ p. p.1) (wanted_files files)
  unfolding kept_records
  kept_records-select [] = refl
  kept_records-select ((name, rec) ∷ files) = elim (Bool-cases (contains_state states rec.state)) [
    | inl e ↦
        rw (select-cons (λ p. contains_state states p.1.state) (name, rec) files, e)
          (ap (λ rest. rec ∷ rest) (kept_records-select files))
    | inr e ↦
        rw (select-cons (λ p. contains_state states p.1.state) (name, rec) files, e)
          (kept_records-select files)
  ]

  -- The list of the database is the records of the rows in the wanted states, each row once, in the
  -- order of their column `created_at`, read as a signed number.
  pub list-wanted :
      (db : Db)
      → (rows : List Row) × (list db states ≡ map (λ row. row.record') rows)
        × Perm rows (wanted_rows db.payments)
        × IsSorted (λ row. signed_order row.created_at) rows
  unfolding list
  list-wanted db =
      let key : Row → ℕ = λ row. signed_order row.created_at in
      (
        wanted_rows (sort_by key db.payments),
        wanted_records-select (sort_by key db.payments),
        select-Perm _ (sort_by-perm key db.payments),
        select-IsSorted _ key _ (sort_by-IsSorted key db.payments),
      )

  -- The list of a directory is the records in the wanted states, one for each file, in the order of their times.
  pub list_files-wanted :
      (entries files : Files)
      → Perm entries files
      → Perm (list_files entries states) (map (λ p. p.1) (wanted_files files))
        × IsSorted (λ rec. rec.created_at) (list_files entries states)
  unfolding list_files
  list_files-wanted entries files p = (
    Perm.trans (sort_by-perm _ (kept_records states entries))
        (rw (kept_records-select entries) (Perm.map _ (select-Perm _ p))),
    sort_by-IsSorted _ (kept_records states entries),
  )
