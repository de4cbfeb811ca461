-- ===== src/Chain/Runtime.antt =====
-- `verify_metadata` and `ChainCall::payload` of src/chain.rs together: a runtime that passed the check
-- takes every call that the crate sends, with its arguments in their order.
use buyback.Base.{
  ℕ, zero, suc, String, Bool, false, true, not, List, [], ◌∷◌, map, some, ◌≡◌, refl, sym, ◌∙◌, ◌⊎◌,
  inl, inr, String-discrete, string_eq, arith, get_elem?,
}
use buyback.Chain.{AccountId, ChainCall, name, expected_event}
use buyback.Chain.Metadata.{
  CallVariant, EventVariant, PalletMetadata, Metadata, required_calls, required_events,
  required_call, field_names, same_names, check_call, check_event, check_all, find_variant,
  verify_metadata,
}
use buyback.Chain.Payload.{
  Value, acct, id_variant, number, boolean, call_pallet, call_args, payload,
}
use buyback.Error.{Error, Result, ok, ◌>>◌, fail_if, bind_ok, ok_or_ok}

-- Each argument of a call under the name that the runtime has for it.
abbrev pub labelled : ChainCall → List (String × Value)
labelled (ChainCall.transfer_tao dest amount) =
    ("dest", id_variant (acct dest)) ∷ ("value", number amount) ∷ []
labelled (ChainCall.transfer_all dest) =
    ("dest", id_variant (acct dest)) ∷ ("keep_alive", boolean false) ∷ []
labelled (ChainCall.transfer_stake dest_coldkey hotkey netuid alpha) =
    ("destination_coldkey", acct dest_coldkey)
    ∷ ("hotkey", acct hotkey)
    ∷ ("origin_netuid", number netuid)
    ∷ ("destination_netuid", number netuid)
    ∷ ("alpha_amount", number alpha)
    ∷ []
labelled (ChainCall.move_stake from_hotkey to_hotkey netuid alpha) =
    ("origin_hotkey", acct from_hotkey)
    ∷ ("destination_hotkey", acct to_hotkey)
    ∷ ("origin_netuid", number netuid)
    ∷ ("destination_netuid", number netuid)
    ∷ ("alpha_amount", number alpha)
    ∷ []
labelled (ChainCall.add_stake_limit hotkey netuid tao limit_price allow_partial) =
    ("hotkey", acct hotkey)
    ∷ ("netuid", number netuid)
    ∷ ("amount_staked", number tao)
    ∷ ("limit_price", number limit_price)
    ∷ ("allow_partial", boolean allow_partial)
    ∷ []
labelled (ChainCall.associate_hotkey hotkey) = ("hotkey", acct hotkey) ∷ []
labelled (ChainCall.burn_alpha hotkey netuid alpha) =
    ("hotkey", acct hotkey) ∷ ("amount", number alpha) ∷ ("netuid", number netuid) ∷ []
labelled (ChainCall.recycle_alpha hotkey netuid alpha) =
    ("hotkey", acct hotkey) ∷ ("amount", number alpha) ∷ ("netuid", number netuid) ∷ []

-- Where the tables have the call and its event.
call_place : ChainCall → ℕ
call_place (ChainCall.transfer_tao _ _) = 0
call_place (ChainCall.transfer_all _) = 1
call_place (ChainCall.transfer_stake _ _ _ _) = 2
call_place (ChainCall.move_stake _ _ _ _) = 3
call_place (ChainCall.add_stake_limit _ _ _ _ _) = 4
call_place (ChainCall.burn_alpha _ _ _) = 5
call_place (ChainCall.recycle_alpha _ _ _) = 6
call_place (ChainCall.associate_hotkey _) = 7

event_place : ChainCall → ℕ
event_place (ChainCall.transfer_stake _ _ _ _) = 1
event_place (ChainCall.move_stake _ _ _ _) = 2
event_place (ChainCall.add_stake_limit _ _ _ _ _) = 3
event_place (ChainCall.burn_alpha _ _ _) = 4
event_place (ChainCall.recycle_alpha _ _ _) = 5
event_place _ = 0

abbrev pub names_of : List (String × Value) → List String
names_of = map (λ p. p.0)

abbrev pub values_of : List (String × Value) → List Value
values_of = map (λ p. p.1)

abbrev pub IsHotkeyClaim : ChainCall → Type 0
IsHotkeyClaim call = (hotkey : AccountId) × (call ≡ ChainCall.associate_hotkey hotkey)

call_required :
    (call : ChainCall)
    → get_elem? required_calls (call_place call)
      ≡ some (required_call (call_pallet call) (name call) (names_of (labelled call)))
unfolding call_place call_pallet name
call_required (ChainCall.transfer_tao _ _) = refl
call_required (ChainCall.transfer_all _) = refl
call_required (ChainCall.transfer_stake _ _ _ _) = refl
call_required (ChainCall.move_stake _ _ _ _) = refl
call_required (ChainCall.add_stake_limit _ _ _ _ _) = refl
call_required (ChainCall.burn_alpha _ _ _) = refl
call_required (ChainCall.recycle_alpha _ _ _) = refl
call_required (ChainCall.associate_hotkey _) = refl

event_required :
    (call : ChainCall)
    → IsHotkeyClaim call
      ⊎ (get_elem? required_events (event_place call) ≡ some (expected_event call))
unfolding event_place expected_event
event_required (ChainCall.transfer_tao _ _) = inr refl
event_required (ChainCall.transfer_all _) = inr refl
event_required (ChainCall.transfer_stake _ _ _ _) = inr refl
event_required (ChainCall.move_stake _ _ _ _) = inr refl
event_required (ChainCall.add_stake_limit _ _ _ _ _) = inr refl
event_required (ChainCall.burn_alpha _ _ _) = inr refl
event_required (ChainCall.recycle_alpha _ _ _) = inr refl
event_required (ChainCall.associate_hotkey hotkey) = inl (hotkey, refl)

args-labelled : (call : ChainCall) → call_args call ≡ values_of (labelled call)
unfolding call_args
args-labelled (ChainCall.transfer_tao _ _) = refl
args-labelled (ChainCall.transfer_all _) = refl
args-labelled (ChainCall.transfer_stake _ _ _ _) = refl
args-labelled (ChainCall.move_stake _ _ _ _) = refl
args-labelled (ChainCall.add_stake_limit _ _ _ _ _) = refl
args-labelled (ChainCall.burn_alpha _ _ _) = refl
args-labelled (ChainCall.recycle_alpha _ _ _) = refl
args-labelled (ChainCall.associate_hotkey _) = refl

same_names-eq : (as' bs : List String) → same_names as' bs ≡ true → as' ≡ bs
unfolding same_names String-discrete
same_names-eq [] [] h = refl
same_names-eq [] (b ∷ bs) h = cc
same_names-eq (a ∷ as') [] h = cc
same_names-eq (a ∷ as') (b ∷ bs) h = ground (arith, same_names-eq as' bs)

-- A loop that reached its end has checked every item.
check_all-get {ℓ} :
    {A : Type ℓ} (check : A → Result String) (xs : List A) (out : List String) {lines : List String}
    (i : ℕ) {x : A}
    → check_all check xs out ≡ ok lines
    → get_elem? xs i ≡ some x
    → (line : String) × (check x ≡ ok line)
unfolding check_all
check_all-get check [] out i h e = cc
check_all-get check (y ∷ ys) out zero h e =
    let (line, passed, _) = bind_ok (check y) _ _ h in
    let same : check y ≡ check _ = cc e in (line, sym same ∙ passed)
check_all-get check (y ∷ ys) out (suc i) h e =
    let (line, _, rest) = bind_ok (check y) _ _ h in check_all-get check ys _ i rest e

-- The runtime has the call under its name, with the arguments of the call in their order.
pub record TakesCall (md : Metadata) (call : ChainCall) : Type 0 where
  pub of_pallet : PalletMetadata
  pub variant : CallVariant
  pub pallet_found : md.pallet_by_name (payload call).pallet_name ≡ some of_pallet
  pub call_found : of_pallet.call_variant_by_name (payload call).call_name ≡ some variant
  pub named : field_names variant.fields ≡ names_of (labelled call)
  pub valued : (payload call).args ≡ values_of (labelled call)

-- The runtime has an event.
pub record HasEvent (md : Metadata) (ev : String × String) : Type 0 where
  pub of_pallet : PalletMetadata
  pub variant : EventVariant
  pub pallet_found : md.pallet_by_name ev.0 ≡ some of_pallet
  pub event_found : find_variant md ev.1 of_pallet.event_variants ≡ some variant

test_passed {ℓ} :
    {A : Type ℓ} (b : Bool) (e : Error) (rest : Result A) {a : A}
    → (fail_if (not b) e >> rest) ≡ ok a
    → b ≡ true
test_passed true e rest h = refl
test_passed false e rest h = cc

check_call-TakesCall :
    (md : Metadata) (call : ChainCall) (line : String)
    → check_call md (required_call (call_pallet call) (name call) (names_of (labelled call)))
      ≡ ok line
    → TakesCall md call
unfolding check_call payload
check_call-TakesCall md call line h =
    let (p, found, h1) = bind_ok _ _ line h in
    let (v, called, h2) = bind_ok _ _ line h1 in
    let same = test_passed (same_names (field_names v.fields) (names_of (labelled call))) _ _ h2 in
    record {
      of_pallet = p;
      variant = v;
      pallet_found = ok_or_ok _ _ p found;
      call_found = ok_or_ok _ _ v called;
      named = same_names-eq _ _ same;
      valued = args-labelled call;
    }

check_event-HasEvent :
    (md : Metadata) (ev : String × String) (line : String)
    → check_event md ev ≡ ok line
    → HasEvent md ev
unfolding check_event
check_event-HasEvent md (p_name, n) line h =
    let (p, found, h1) = bind_ok _ _ line h in
    let (v, seen, _) = bind_ok _ _ line h1 in
    record {
      of_pallet = p;
      variant = v;
      pallet_found = ok_or_ok _ _ p found;
      event_found = ok_or_ok _ _ v seen;
    }

-- A runtime whose metadata passed `verify_metadata` has each call that the crate sends: the pallet and the
-- call of its payload are found, the runtime's names of the arguments are the call's own, in order, and the
-- payload's values are the values of those names. It has the event that a finalized call is
-- checked for too, except that of a claim of a hotkey, which is of the system pallet.
pub verify_metadata-TakesCall :
    (md : Metadata) (lines : List String) (call : ChainCall)
    → verify_metadata (ok md) ≡ ok lines
    → TakesCall md call × (IsHotkeyClaim call ⊎ HasEvent md (expected_event call))
unfolding verify_metadata
verify_metadata-TakesCall md lines call h =
    let (calls, first, second) = bind_ok _ _ lines h in
    let (line, passed) =
      check_all-get (check_call md) required_calls _ (call_place call) first (call_required call) in
    (
      check_call-TakesCall md call line passed,
      elim (event_required call) [
        | inl claim ↦ inl claim
        | inr listed ↦
            let (row, seen) =
              check_all-get (check_event md) required_events _ (event_place call) second listed in
            inr (check_event-HasEvent md (expected_event call) row seen)
      ],
    )
