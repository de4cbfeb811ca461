-- ===== src/Chain/RuntimeTests.antt =====
-- A runtime with the calls and events of src/chain.rs, and the theorem on its check.
use buyback.Base.{String, List, [], ◌∷◌, ◌≡◌, refl, ◌⊎◌, string_eq, String-discrete}
use buyback.Chain.{ChainCall, expected_event}
use buyback.Chain.Metadata.{
  field_names, same_names, join_names, check_call, check_event, check_all, find_event,
  verify_metadata,
}
use buyback.Chain.Runtime.{
  TakesCall, HasEvent, IsHotkeyClaim, labelled, names_of, verify_metadata-TakesCall,
}
use buyback.Fixtures.Runtime.{runtime}
use buyback.Error.{Result, ok, err}
use buyback.Units.Amount.{show}

abbrev lines_of : Result (List String) → List String
lines_of (ok lines) = lines
lines_of (err e) = []

runtime_passes : verify_metadata (ok runtime) ≡ ok (lines_of (verify_metadata (ok runtime)))
unfolding verify_metadata check_all check_call check_event field_names same_names join_names
    find_event show String-discrete
runtime_passes = refl

abbrev burn : ChainCall
burn = ChainCall.burn_alpha 5 1 40

verify_metadata-TakesCall_example :
    TakesCall runtime burn × (IsHotkeyClaim burn ⊎ HasEvent runtime (expected_event burn))
verify_metadata-TakesCall_example =
    verify_metadata-TakesCall runtime (lines_of (verify_metadata (ok runtime))) burn runtime_passes

burn_names : names_of (labelled burn) ≡ "hotkey" ∷ "amount" ∷ "netuid" ∷ []
burn_names = refl
