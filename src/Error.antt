-- ===== src/Error.antt =====
-- src/error.rs: the error type of the crate, its text, and the `Result` that every fallible
-- function returns. A text that the source formats keeps its fixed words; the quotation marks of
-- `{:?}` on a text are left out.
use buyback.Base.{String, push_str, Bool, true, false, Option, none, some, ◌≡◌, refl, ◌⊎◌, inl, inr}
use buyback.State.{PaymentState}

-- `Error`
pub data Error : Type 0 where
  chain : String → Error
  store : String → Error
  crypto : String → Error
  config : String → Error
  invalid_transition : (from to : PaymentState) → Error
  not_found : String → Error
  conflict : String → Error
  insufficient : String → Error
  event_missing : String → Error

-- `{:?}` of a `PaymentState`
debug_state : PaymentState → String
debug_state PaymentState.pending = "Pending"
debug_state PaymentState.detected = "Detected"
debug_state PaymentState.funded = "Funded"
debug_state PaymentState.swept = "Swept"
debug_state PaymentState.settled = "Settled"
debug_state PaymentState.failed = "Failed"
debug_state PaymentState.expired = "Expired"

-- `Error::to_string`, from the `#[error]` attributes.
unfoldable pub to_string : Error → String
unfolding debug_state
to_string (Error.chain s) = push_str "chain: " s
to_string (Error.store s) = push_str "store: " s
to_string (Error.crypto s) = push_str "crypto: " s
to_string (Error.config s) = push_str "config: " s
to_string (Error.invalid_transition a b) =
    push_str "invalid state transition "
      (push_str (debug_state a) (push_str " -> " (debug_state b)))
to_string (Error.not_found s) = push_str "payment " (push_str s " not found")
to_string (Error.conflict s) = push_str "concurrent update of payment " s
to_string (Error.insufficient s) = push_str "insufficient funds: " s
to_string (Error.event_missing s) =
    push_str "expected event " (push_str s " not found in finalized block")

-- `Result`
pub data Result {ℓ} (A : Type ℓ) : Type ℓ where
  ok : A → Result A
  err : Error → Result A

-- `r?` before the rest of a function
infixl 5 ◌>>=◌ ◌>>◌
abbrev pub ◌>>=◌ {ℓ ℓ'} :
    {Value : Type ℓ} {Answer : Type ℓ'}
    → Result Value
    → (rest : Value → Result Answer) → Result Answer
failed_or_done >>= rest = elim failed_or_done [ err e ↦ err e | ok value ↦ rest value ]

-- `check?;`
abbrev pub ◌>>◌ {ℓ} :
    {Answer : Type ℓ} → (check : Result (Unit {0})) → Result Answer → Result Answer
ok tt >> rest = rest
err e >> rest = err e

-- `if c { return Err(e) }`
abbrev pub fail_if : Bool → Error → Result (Unit {0})
fail_if true e = err e
fail_if false e = ok tt

-- `o.ok_or(e)`
abbrev pub ok_or {ℓ} : {A : Type ℓ} → Option A → Error → Result A
ok_or none e = err e
ok_or (some a) e = ok a

abbrev pub is_ok {ℓ} : {A : Type ℓ} → Result A → Bool
is_ok (ok _) = true
is_ok (err _) = false

pub Result-cases {ℓ} :
    {A : Type ℓ} (r : Result A) → ((e : Error) × (r ≡ err e)) ⊎ ((a : A) × (r ≡ ok a))
Result-cases (ok a) = inr (a, refl)
Result-cases (err e) = inl (e, refl)

-- A function that returned went on after every `?`.
pub bind_ok {ℓ ℓ'} :
    {A : Type ℓ} {B : Type ℓ'} (r : Result A) (rest : A → Result B) (b : B)
    → (r >>= rest) ≡ ok b
    → (a : A) × (r ≡ ok a) × (rest a ≡ ok b)
bind_ok (ok a) rest b h = (a, refl, h)
bind_ok (err e) rest b h = cc

pub check_ok {ℓ} :
    {B : Type ℓ} (r : Result (Unit {0})) (rest : Result B) (b : B)
    → (r >> rest) ≡ ok b
    → (r ≡ ok tt) × (rest ≡ ok b)
check_ok (ok tt) rest b h = (refl, h)
check_ok (err e) rest b h = cc

pub fail_if_ok : (c : Bool) (e : Error) → fail_if c e ≡ ok tt → c ≡ false
fail_if_ok true e h = cc
fail_if_ok false e h = refl

pub ok_or_ok {ℓ} : {A : Type ℓ} (o : Option A) (e : Error) (a : A) → ok_or o e ≡ ok a → o ≡ some a
ok_or_ok none e a h = cc
ok_or_ok (some x) e a h = cc

pub ok_same {ℓ} : {A : Type ℓ} {a b : A} → ok a ≡ ok b → a ≡ b
ok_same h = cc
