-- ===== src/Chain/Payload.antt =====
-- `ChainCall::payload` of src/chain.rs: the arguments that a call is sent with. A `Value` is one of the
-- forms of `scale_value` that the crate builds.
use buyback.Base.{ℕ, String, Bool, false, List, [], ◌∷◌}
use buyback.Chain.{AccountId, ChainCall, name, pallet}

pub data Value : Type 0 where
  acct : AccountId → Value
  id_variant : Value → Value
  number : ℕ → Value
  boolean : Bool → Value

-- `DynamicPayload`
pub record Payload : Type 0 where
  pub pallet_name : String
  pub call_name : String
  pub args : List Value

-- The pallet of a call.
unfoldable pub call_pallet : ChainCall → String
call_pallet (ChainCall.transfer_tao _ _) = "Balances"
call_pallet (ChainCall.transfer_all _) = "Balances"
call_pallet _ = pallet

-- The arguments of a call.
unfoldable pub call_args : ChainCall → List Value
call_args (ChainCall.transfer_tao dest amount) = id_variant (acct dest) ∷ number amount ∷ []
call_args (ChainCall.transfer_all dest) = id_variant (acct dest) ∷ boolean false ∷ []
call_args (ChainCall.transfer_stake dest_coldkey hotkey netuid alpha) =
    acct dest_coldkey ∷ acct hotkey ∷ number netuid ∷ number netuid ∷ number alpha ∷ []
call_args (ChainCall.move_stake from_hotkey to_hotkey netuid alpha) =
    acct from_hotkey ∷ acct to_hotkey ∷ number netuid ∷ number netuid ∷ number alpha ∷ []
call_args (ChainCall.add_stake_limit hotkey netuid tao limit_price allow_partial) =
    acct hotkey ∷ number netuid ∷ number tao ∷ number limit_price ∷ boolean allow_partial ∷ []
call_args (ChainCall.associate_hotkey hotkey) = acct hotkey ∷ []
call_args (ChainCall.burn_alpha hotkey netuid alpha) =
    acct hotkey ∷ number alpha ∷ number netuid ∷ []
call_args (ChainCall.recycle_alpha hotkey netuid alpha) =
    acct hotkey ∷ number alpha ∷ number netuid ∷ []

-- `ChainCall::payload`
unfoldable pub payload : ChainCall → Payload
unfolding call_pallet call_args
payload call = record {
  pallet_name = call_pallet call;
  call_name = name call;
  args = call_args call;
}
