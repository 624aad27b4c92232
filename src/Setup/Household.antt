-- ===== src/Setup/Household.antt =====
-- config_flow.py, `async_step_household`: the entry of a household over MQTT, and its command key.
use homekey_household.Prelude.{
  Text, codes, truthy, strip, or_text, Bool, false, not, Option, none, some, [], ◌∷◌, if◌then◌else◌,
}
use homekey_household.Models.Json.{Json}
use homekey_household.Models.Errors.{
  Error, Result, ok, raise, unexpected, service_error, home_assistant_error,
}
use homekey_household.Models.Validators.{validate_id}
use homekey_household.Command.Encoding.{Bytes}
use homekey_household.Command.Build.{Crypto}
use homekey_household.Credential.Keys.{Credential, KeyStore, new_store, load, set_from_secret}
use homekey_household.Backup.Service.{is_transport_error}

-- What the user gave.
pub record HouseholdInput : Type 0 where
  pub household_id : Text
  pub household_name : Option Text
  pub recovery_secret : Option Text
  pub salt : Option Text
  pub command_control : Bool

-- The title and the data of the entry.
pub record MqttEntry : Type 0 where
  pub title : Text
  pub household_id : Text
  pub household_name : Text
  pub command_control : Bool

-- How the step ends: the form again with an error, an abort of Home Assistant's because the household
-- has an entry under this unique id, a new entry, or an exception.
pub data HouseholdStep : Type 0 where
  form_again : Text → HouseholdStep
  already_configured : HouseholdStep
  entry_created : MqttEntry → HouseholdStep
  exception : Error → HouseholdStep

-- `ValidationError`
unfoldable pub is_validation_error : Error → Bool
unfolding is_transport_error
is_validation_error unexpected = false
is_validation_error service_error = false
is_validation_error home_assistant_error = false
is_validation_error e = not (is_transport_error e)

-- `value or None`
abbrev pub text_or_nothing : Option Text → Option Text
text_or_nothing none = none
text_or_nothing (some []) = none
text_or_nothing (some (c ∷ s)) = some (c ∷ s)

-- `(name or "").strip() or household_id`
unfoldable pub name_of : Option Text → Text → Text
unfolding strip
name_of name household_id = or_text (some (strip (or_text name []))) household_id

-- The step once the key was to be stored, and the file after it.
unfoldable pub after_set : MqttEntry → Result Credential × KeyStore → HouseholdStep × Json
unfolding is_validation_error
after_set entry (ok c, s) = (HouseholdStep.entry_created entry, s.file)
after_set entry (raise e, s) = (
  if is_validation_error e
      then HouseholdStep.form_again (codes "invalid_recovery_secret")
      else HouseholdStep.exception e,
  s.file,
)

module _ (crypto : Crypto) (sha256_hex : Bytes → Text) where
  -- The key of the household, in a store that reads the file anew.
  unfoldable pub keep_key :
      MqttEntry → Text → Option Text → Result (Unit {0}) × KeyStore → HouseholdStep × Json
  unfolding set_from_secret after_set
  keep_key entry secret salt (raise e, s) = (HouseholdStep.exception e, s.file)
  keep_key entry secret salt (ok u, s) =
      after_set entry (set_from_secret sha256_hex crypto entry.household_id secret salt s)

  unfoldable pub with_secret : MqttEntry → Text → Option Text → Json → HouseholdStep × Json
  unfolding load new_store keep_key
  with_secret entry secret salt file =
      if truthy secret
      then keep_key entry secret salt (load sha256_hex (new_store file))
      else (HouseholdStep.entry_created entry, file)

  unfoldable pub with_id :
      (Text → Bool) → HouseholdInput → Result Text → Json → HouseholdStep × Json
  unfolding with_secret name_of
  with_id configured i (raise e) file =
      (HouseholdStep.form_again (codes "invalid_household_id"), file)
  with_id configured i (ok household_id) file =
      if configured household_id
      then (HouseholdStep.already_configured, file)
      else with_secret
          (record {
            title = name_of i.household_name household_id;
            household_id = household_id;
            household_name = name_of i.household_name household_id;
            command_control = i.command_control;
          })
          (or_text i.recovery_secret []) (text_or_nothing i.salt) file

  -- `async_step_household`; `configured` tells the unique ids of the households that have an entry.
  unfoldable pub step_household : (Text → Bool) → HouseholdInput → Json → HouseholdStep × Json
  unfolding with_id validate_id strip
  step_household configured i file =
      with_id configured i (validate_id (strip i.household_id) (codes "household_id") 64) file
