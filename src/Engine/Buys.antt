-- ===== src/Engine/Buys.antt =====
-- The automatic buyback of src/engine.rs: the full budget at a reserve kept, or nothing; and
-- the position that a sweep goes for.
use buyback.Base.{
  ℕ, ◌+◌, ◌≤◌, ◌<◌, ◌≡◌, arith, String, true, false, none, some, List, [], ◌∷◌, ◌⊎◌, ◌↔◌, All,
  string_eq,
}
use buyback.Config.{destroy_eq}
use buyback.Chain.{StakePosition}
use buyback.State.Budget.{min_stake_rao}
use buyback.Error.{ok}
use buyback.Keys.{Ss58, ss58}
use buyback.Units.{spendable}
use buyback.Engine.Checks.{strict_buyback_amount}
use buyback.Engine.Steps.{is_swept, next_position}

-- The amount of a buyback is granted exactly when it is the whole budget, which is at least the
-- chain's minimum and leaves the fee reserve and the existential deposit in the treasury.
pub strict_buyback_amount-spendable :
    (requested free fee_reserve existential_deposit amount : ℕ)
    → (strict_buyback_amount requested (spendable free fee_reserve existential_deposit) ≡ ok amount)
      ↔ ((amount ≡ requested)
          × (min_stake_rao ≤ requested)
          × (requested + fee_reserve + existential_deposit ≤ free))
unfolding strict_buyback_amount spendable
strict_buyback_amount-spendable requested free fee_reserve ed amount =
    (λ h. ground arith, λ h. ground arith)

-- The pick of a sweep is worth it and not swept yet.
next_position-some :
    ⦃codec : Ss58⦄ (floor : ℕ) (done : List (String × ℕ)) (ps : List StakePosition)
    (p : StakePosition)
    → next_position floor done ps ≡ some p
    → (floor ≤ p.alpha) × (is_swept (ss58 p.hotkey) done ≡ false)
unfolding next_position
next_position-some floor done [] p h = cc
next_position-some floor done (q ∷ qs) p h = ground (arith, next_position-some floor done qs p)

-- Each position is below the floor, or its hotkey is among those swept.
abbrev pub AllDone : ⦃codec : Ss58⦄ → ℕ → List (String × ℕ) → List StakePosition → Type 0
AllDone floor done ps = All (λ p. (p.alpha < floor) ⊎ (is_swept (ss58 p.hotkey) done ≡ true)) ps

next_position-none :
    ⦃codec : Ss58⦄ (floor : ℕ) (done : List (String × ℕ)) (ps : List StakePosition)
    → next_position floor done ps ≡ none
    → AllDone floor done ps
unfolding next_position
next_position-none floor done [] h = tt
next_position-none floor done (q ∷ qs) h =
    (ground arith, next_position-none floor done qs (ground arith))

-- A sweep goes for a position that is worth it and whose hotkey has not been swept; it finds none only
-- when every position of the wallet is below the floor or swept.
pub next_position_lem :
    ⦃codec : Ss58⦄ (floor : ℕ) (done : List (String × ℕ)) (ps : List StakePosition)
    → ((p : StakePosition)
        → next_position floor done ps ≡ some p
        → (floor ≤ p.alpha) × (is_swept (ss58 p.hotkey) done ≡ false))
      × (next_position floor done ps ≡ none → AllDone floor done ps)
next_position_lem floor done ps =
    (next_position-some floor done ps, next_position-none floor done ps)
