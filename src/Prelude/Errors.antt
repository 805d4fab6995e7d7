-- ===== src/Prelude/Errors.antt =====
-- Python's exceptions as values, one constructor for each reason that the code raises for.
use mathlib.Core.Path.{◌≡◌, refl}
use mathlib.Core.Bool.{Bool, true, false}
use mathlib.Core.Logic.{◌⊎◌, inl, inr}

pub data Error : Type 0 where
  -- `ValueError` and its subclasses, by reason
  bad_severity title_required note_required finding_closed not_remediating not_retesting : Error
  retest_of_other_test retest_of_other_control bad_closure_decision : Error
  not_draft not_in_review not_approved bad_review_decision comment_required withdraw_terminal :
      Error
  bad_result unexpected_exceptions sample_of_other_control unknown_sample_item : Error
  other_control_retested empty_sample unknown_population_item : Error
  instance_disabled missing_secret_field missing_config_field : Error
  identity_confusion stale_plan silent_downgrade plan_mismatch manifest_substituted : Error
  no_ingestion_path inactive_period unknown_category bad_period : Error
  no_catalog_family already_adopted other_family nothing_to_upgrade inactive_framework : Error
  object_storage_error no_temporary_file : Error
  -- no exception of the code: a loop of the model ran out of fuel
  out_of_fuel : Error
  not_departed not_disabled : Error
  -- `HTTPException`: the redirects to the login page by their messages, and the refusals
  login_required account_pending account_inactive admin_required write_required : Error
  -- `ConnectorContractError`
  contract_error : Error
  -- `RuntimeError`, and `ConcurrentAppendError` among them
  no_handler immutable_event concurrent_append : Error
  -- the language's and the database's own
  integrity_error key_error attribute_error type_error value_error not_found : Error

pub data Result {ℓ} (A : Type ℓ) : Type ℓ where
  ok : A → Result A
  err : Error → Result A

-- the rest of a function runs on the value, unless the call before it raised
abbrev pub ◌>>=◌ {κ ℓ} : {V : Type κ} {W : Type ℓ} → Result V → (V → Result W) → Result W
err reason >>= next = err reason
ok value >>= next = next value

abbrev pub ◌>>◌ {ℓ} : {W : Type ℓ} → Result (Unit {0}) → Result W → Result W
check >> next = check >>= λ _. next

infixl 5 ◌>>=◌ ◌>>◌
-- `if not test: raise error`
abbrev pub require : Bool → Error → Result (Unit {0})
require true e = ok tt
require false e = err e

-- A chain that returned: its first call returned a value, and the rest returned on it.
pub >>=-eq-ok {κ ℓ} :
    {V : Type κ} {W : Type ℓ} (call : Result V) (next : V → Result W) {w : W}
    → (call >>= next) ≡ ok w
    → (v : V) × (call ≡ ok v) × (next v ≡ ok w)
>>=-eq-ok (err reason) next returned = cc
>>=-eq-ok (ok v) next returned = (v, refl, returned)

pub >>=-ok {ℓ} : {A : Type ℓ} (m : Result A) → (m >>= ok) ≡ m
>>=-ok (ok a) = refl
>>=-ok (err e) = refl

pub require-eq-ok {ℓ} :
    {B : Type ℓ} (b : Bool) (e : Error) (k : Result B) {r : B}
    → (require b e >> k) ≡ ok r
    → (b ≡ true) × (k ≡ ok r)
require-eq-ok true e k h = (refl, h)
require-eq-ok false e k h = cc

abbrev pub is_ok {ℓ} : {A : Type ℓ} → Result A → Bool
is_ok (ok a) = true
is_ok (err e) = false

-- The value of a run that does not raise.
pub ok_of {ℓ} : {A : Type ℓ} (m : Result A) → is_ok m ≡ true → (a : A) × (m ≡ ok a)
ok_of (ok a) h = (a, refl)
ok_of (err e) h = cc

-- What a request leaves (app/deps.py, `get_db`): committed, or rolled back if it raised.
abbrev pub committed {ℓ} : {A : Type ℓ} → A → Result A → A
committed before (ok after) = after
committed before (err e) = before

pub Result-cases {ℓ} :
    {A : Type ℓ} (m : Result A) → ((e : Error) × (m ≡ err e)) ⊎ ((a : A) × (m ≡ ok a))
Result-cases (ok a) = inr (a, refl)
Result-cases (err e) = inl (e, refl)
