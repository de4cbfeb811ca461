-- ===== src/Engine/Consolidation.antt =====
-- The loop of `step_swept` in src/engine.rs, which consolidates one swept position after the other: the
-- rounds that the model allows it are enough.
use buyback.Base.{
  ℕ, zero, suc, ◌+◌, ◌≤◌, ◌<◌, ◌≡◌, refl, sym, ◌∙◌, ap, String, List, [], ◌∷◌, Option, none, some,
  Bool, true, arith, length, u64_mod, wrap_u64, ltb, if◌then◌else◌, inl, inr, Bool-cases, ◌==◌,
}
use buyback.State.{PaymentRecord}
use buyback.Error.{Result, ok, err}
use buyback.Keys.{Ss58}
use buyback.Store.{Db}
use buyback.Store.Sqlite
use buyback.Store.Swap.{get-update}
use buyback.Engine.Env.{Engine, World, Async, ◌>>=◌, store_update, tick_world, commit}
use buyback.Engine.Sweep.{get_position, consolidate_round, consolidate, step_swept}

-- Two ways to go on from `m` agree if they agree on what `m` answers.
bind_same :
    {A B : Type 0} (m : Async A) (f g : A → Async B) (w : World)
    → ((a : A) (w' : World) → m w ≡ (ok a, w') → f a w' ≡ g a w')
    → (m >>= f) w ≡ (m >>= g) w
unfolding ◌>>=◌
bind_same {A} {B} m f g w h = go (m w) refl
  where
    go :
        (p : Result A × World)
        → m w ≡ p
        → elim p.0 as (λ _. Result B × World) [ ok a ↦ f a p.1 | err e ↦ (err e, p.1) ]
          ≡ elim p.0 as (λ _. Result B × World) [ ok a ↦ g a p.1 | err e ↦ (err e, p.1) ]
    go (ok a, w') e = h a w' e
    go (err x, w') e = refl

taken :
    {A : Type 0} (b : Bool) (x y : World → A) (w : World) → b ≡ true → (if b then x else y) w ≡ x w
taken b x y w h = rw h

-- The parts of a record that the loop reads.
record SameSweep (r next : PaymentRecord) (done : ℕ) : Type 0 where
  same_positions : next.swept_positions ≡ r.swept_positions
  is_at : next.consolidated ≡ done

no_position : (ps : List (String × ℕ)) (i : ℕ) → length ps ≤ i → get_position ps i ≡ none
no_position [] i h = refl
no_position (p ∷ ps) zero h = absurd (omega arith)
no_position (p ∷ ps) (suc i) h = no_position ps i (omega arith)

module _ ⦃codec : Ss58⦄ (e : Engine) where
  stored_same :
      (rec next : PaymentRecord) (w w' : World)
      → store_update e rec w ≡ (ok next, w')
      → SameSweep rec next rec.consolidated
  unfolding store_update
  stored_same rec next w w' h =
      go (Sqlite.update (tick_world e w).db rec (e.rpc.now (tick_world e w).awaits)) refl
        (ap (λ (p : Result PaymentRecord × World). p.0) h)
    where
      go :
          (u : Result (PaymentRecord × Db))
          → Sqlite.update (tick_world e w).db rec (e.rpc.now (tick_world e w).awaits) ≡ u
          → (commit e (tick_world e w) u).0 ≡ ok next
          → SameSweep rec next rec.consolidated
      go (err x) eq h' = cc
      go (ok (rec', db')) eq h' =
          let s : next ≡ rec' = cc in
          let v = get-update _ rec rec' _ db' eq in
          rw (s, v.1) (record { same_positions = refl; is_at = refl })

  module _ (notify : PaymentRecord → Async (Unit {0})) where
    -- A round depends on the later rounds only at a record that is one position further.
    round_same :
        (rest rest' : PaymentRecord → Async Bool) (r : PaymentRecord) (pos : Option String)
        (w : World)
        → ((next : PaymentRecord) (w' : World)
            → SameSweep r next (wrap_u64 (r.consolidated + 1))
            → rest next w' ≡ rest' next w')
        → consolidate_round e notify rest r pos w ≡ consolidate_round e notify rest' r pos w
    unfolding consolidate_round
    round_same rest rest' r none w h = refl
    round_same rest rest' r (some a) w h = bind_same _ _ _ w λ hk w₁ _.
        bind_same _ _ _ w₁ λ live w₂ _. elim (Bool-cases (live == 0)) [
          | inl gone ↦ rw gone (
              bind_same _ _ _ w₂ λ next w₃ stored.
                let s = stored_same _ next w₂ w₃ stored in
                h next w₃ (record { same_positions = s.same_positions; is_at = s.is_at }))
          | inr left ↦ rw left
        ]

    -- Two numbers of rounds that are both enough give the same.
    rounds_same :
        (k k' : ℕ) (r : PaymentRecord) (w : World)
        → length r.swept_positions < u64_mod
        → length r.swept_positions ≤ r.consolidated + k
        → length r.swept_positions ≤ r.consolidated + k'
        → consolidate e notify k r w ≡ consolidate e notify k' r w
    unfolding consolidate
    rounds_same zero zero r w fits enough enough' = refl
    rounds_same zero (suc k') r w fits enough enough' =
        rw (no_position r.swept_positions r.consolidated (omega arith)) refl
    rounds_same (suc k) zero r w fits enough enough' =
        rw (no_position r.swept_positions r.consolidated (omega arith)) refl
    rounds_same (suc k) (suc k') r w fits enough enough' =
        elim (Bool-cases (ltb r.consolidated (length r.swept_positions))) [
          | inr past ↦ rw (no_position r.swept_positions r.consolidated (ground arith)) refl
          | inl more ↦ round_same _ _ r _ w λ next w' s.
              let n : length next.swept_positions ≡ length r.swept_positions =
                ap (λ (ps : List (String × ℕ)). length ps) s.same_positions in
              let at : next.consolidated ≡ r.consolidated + 1 = ground (arith, s.is_at) in
              rounds_same k k' next w' (omega arith) (omega arith) (omega arith)
        ]

    step_swept-consolidate :
        (r : PaymentRecord) (w : World)
        → e.cfg.consolidate ≡ true
        → step_swept e notify r w ≡ consolidate e notify (length r.swept_positions) r w
    unfolding step_swept
    step_swept-consolidate r w on = taken _ _ _ w on

    -- The loop of the source is what the step runs: where a payment consolidates, the step is the
    -- round for its next position, followed by the whole loop again, until no position is left. No
    -- run ends for lack of rounds, if the record has fewer than 2 ^ 64 positions.
    pub step_swept-consolidate_round :
        (r : PaymentRecord) (w : World)
        → e.cfg.consolidate ≡ true
        → length r.swept_positions < u64_mod
        → step_swept e notify r w
          ≡ consolidate_round e notify
              (step_swept e notify)
              r
              (get_position r.swept_positions r.consolidated)
              w
    unfolding consolidate
    step_swept-consolidate_round r w on fits =
        let n = length r.swept_positions in
        step_swept-consolidate r w on
        ∙ rounds_same n (suc n) r w fits (omega arith) (omega arith)
        ∙ round_same _ _ r _ w λ next w' s.
          ap (λ (ps : List (String × ℕ)). consolidate e notify (length ps) next w')
            (sym s.same_positions)
          ∙ sym (step_swept-consolidate next w' on)
