-- ===== src/Chain/Metadata.antt =====
-- `REQUIRED_CALLS`, `REQUIRED_EVENTS` and `Chain::verify_metadata` of src/chain.rs: the check of the
-- node's runtime. The metadata is subxt's: a pallet has its calls by name and its list of events.
use buyback.Base.{
  ℕ, String, List, [], ◌∷◌, ◌++◌, Option, none, some, Bool, true, false, not, ◌&&◌, ◌=?◌, string_eq,
  push_str, if◌then◌else◌,
}
use buyback.Chain.{pallet}
use buyback.Error.{Error, Result, ok, ◌>>=◌, ◌>>◌, fail_if, ok_or}
use buyback.Units.Amount.{show}

pub record CallVariant : Type 0 where
  pub index : ℕ
  pub fields : List (Option String)

pub record EventVariant : Type 0 where
  pub name : String
  pub index : ℕ

pub record PalletMetadata : Type 0 where
  pub call_variant_by_name : String → Option CallVariant
  pub event_variants : Option (List EventVariant)

pub record Metadata : Type 0 where
  pub spec_version : ℕ
  pub pallet_by_name : String → Option PalletMetadata

-- An entry of `REQUIRED_CALLS`.
pub record RequiredCall : Type 0 where
  pub pallet_name : String
  pub call_name : String
  pub arg_names : List String

-- The arguments of a move of stake between two keys.
abbrev stake_args : (from to : String) → List String
stake_args from to = from ∷ to ∷ "origin_netuid" ∷ "destination_netuid" ∷ "alpha_amount" ∷ []

abbrev pub required_call : String → String → List String → RequiredCall
required_call p c args = record { pallet_name = p; call_name = c; arg_names = args }

-- `REQUIRED_CALLS`
abbrev pub required_calls : List RequiredCall
required_calls =
    required_call "Balances" "transfer_keep_alive" ("dest" ∷ "value" ∷ [])
    ∷ required_call "Balances" "transfer_all" ("dest" ∷ "keep_alive" ∷ [])
    ∷ required_call pallet "transfer_stake" (stake_args "destination_coldkey" "hotkey")
    ∷ required_call pallet "move_stake" (stake_args "origin_hotkey" "destination_hotkey")
    ∷ required_call pallet "add_stake_limit"
        ("hotkey" ∷ "netuid" ∷ "amount_staked" ∷ "limit_price" ∷ "allow_partial" ∷ [])
    ∷ required_call pallet "burn_alpha" ("hotkey" ∷ "amount" ∷ "netuid" ∷ [])
    ∷ required_call pallet "recycle_alpha" ("hotkey" ∷ "amount" ∷ "netuid" ∷ [])
    ∷ required_call pallet "try_associate_hotkey" ("hotkey" ∷ [])
    ∷ []

-- `REQUIRED_EVENTS`
abbrev pub required_events : List (String × String)
required_events =
    ("Balances", "Transfer")
    ∷ (pallet, "StakeTransferred")
    ∷ (pallet, "StakeMoved")
    ∷ (pallet, "StakeAdded")
    ∷ (pallet, "AlphaBurned")
    ∷ (pallet, "AlphaRecycled")
    ∷ []

-- `v.fields.iter().filter_map(|f| f.name.as_deref()).collect()`
unfoldable pub field_names : List (Option String) → List String
field_names [] = []
field_names (none ∷ fields) = field_names fields
field_names (some n ∷ fields) = n ∷ field_names fields

-- `names == *args`
unfoldable pub same_names : List String → List String → Bool
same_names [] [] = true
same_names [] (b ∷ bs) = false
same_names (a ∷ as') [] = false
same_names (a ∷ as') (b ∷ bs) = a =? b && same_names as' bs

-- `names.join(", ")`
unfoldable pub join_names : List String → String
join_names [] = ""
join_names (n ∷ []) = n
join_names (n ∷ m ∷ names) = push_str n (push_str ", " (join_names (m ∷ names)))

-- `{pallet}.{name}`
abbrev dotted : String → String → String
dotted p n = push_str p (push_str "." n)

-- `#{index}`
abbrev hash_index : ℕ → String
hash_index i = push_str "#" (show 3 i "")

module _ (md : Metadata) where
  abbrev pub pallet_of : String → Result PalletMetadata
  pallet_of p =
      ok_or (md.pallet_by_name p) (Error.chain (push_str "pallet " (push_str p " missing")))

  -- One round of the loop over the calls.
  unfoldable pub check_call : RequiredCall → Result String
  check_call r = do
    let label = dotted r.pallet_name r.call_name
    p ← pallet_of r.pallet_name
    v ←
        ok_or (p.call_variant_by_name r.call_name)
          (Error.chain (push_str "call " (push_str label " missing from runtime")))
    let names = field_names v.fields
    fail_if (not (same_names names r.arg_names)) (
        Error.chain (
          push_str "call " (
            push_str label (
              push_str " has args "
                (push_str (join_names names) (push_str ", expected " (join_names r.arg_names)))))))
    ok (
        push_str "call " (
          push_str label (
            push_str " "
              (push_str (hash_index v.index) (push_str "(" (push_str (join_names names) ")"))))))

  -- `vs.iter().find(|v| v.name == *ev)`
  unfoldable pub find_event : String → List EventVariant → Option EventVariant
  find_event ev [] = none
  find_event ev (v ∷ vs) = if v.name =? ev then some v else find_event ev vs

  abbrev pub find_variant : String → Option (List EventVariant) → Option EventVariant
  find_variant ev none = none
  find_variant ev (some vs) = find_event ev vs

  -- One round of the loop over the events.
  unfoldable pub check_event : String × String → Result String
  check_event (p_name, ev) = do
    let label = dotted p_name ev
    p ← pallet_of p_name
    v ←
        ok_or (find_variant ev p.event_variants)
          (Error.chain (push_str "event " (push_str label " missing")))
    ok (push_str "event " (push_str label (push_str " " (hash_index v.index))))

-- A loop that pushes a line for each item.
unfoldable pub check_all {ℓ} :
    {A : Type ℓ} → (A → Result String) → List A → List String → Result (List String)
check_all check [] out = ok out
check_all check (x ∷ xs) out = do line ← check x; check_all check xs (out ++ line ∷ [])

-- `verify_metadata`
unfoldable pub verify_metadata : Result Metadata → Result (List String)
verify_metadata current = do
  md ← current
  calls ←
      check_all (check_call md) required_calls
        (push_str "spec_version " (show 10 md.spec_version "") ∷ [])
  check_all (check_event md) required_events calls
