-- ===== src/Models/Errors.antt =====
-- `ValidationError` and the other exceptions, by the check that raises them and the field at fault.
-- The rendered message (with the offending value's type or representation) is not kept.
use homekey_household.Prelude.{Text, Bool, if◌then◌else◌}

pub data Error : Type 0 where
  expected_object expected_string must_not_be_empty expected_boolean : Text → Error
  expected_integer expected_list invalid_timestamp invalid_timestamp_type : Text → Error
  unknown_value missing too_long invalid_characters unexpected_payload : Text → Error
  does_not_match : Text → Text → Error
  invalid_type invalid_json : Error
  unsupported_action empty_key no_fresh_nonce bad_nonce bad_request_id : Error
  empty_secret credential_unavailable client_unavailable : Error
  -- `DirectTransportError` and its subclasses
  auth_failed tls_unavailable protocol_error no_household fingerprint_mismatch : Error
  transport_failed : Error
  -- Home Assistant's `ServiceValidationError` and `HomeAssistantError`
  service_error home_assistant_error : Error
  -- any other exception
  unexpected : Error

-- What a call gives: its value, or what it raised.
pub data Result {ℓ} (A : Type ℓ) : Type ℓ where
  raise : Error → Result A
  ok : A → Result A

-- `if not test: raise e`
abbrev pub guard : Bool → Error → Result (Unit {0})
guard test e = if test then ok tt else raise e

-- What was raised stops the chain.
infixl 5 ◌>>=◌ ◌>>◌
abbrev pub ◌>>=◌ {ι κ} : {A : Type ι} {C : Type κ} → Result A → (A → Result C) → Result C
raise e >>= rest = raise e
ok a >>= rest = rest a

abbrev pub ◌>>◌ {ι} : {C : Type ι} → Result (Unit {0}) → Result C → Result C
check >> rest = check >>= (λ _. rest)
