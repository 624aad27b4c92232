-- ===== src/Setup/Options.antt =====
-- config_flow.py, `HomeKeyHouseholdOptionsFlow`: a new recovery secret, and the options of an entry.
use homekey_household.Prelude.{
  Text, codes, truthy, strip, or_text, Dict, lookup, Bool, true, false, Option, none, some, [], ◌∷◌,
  ℤ, pos, int_eq, if◌then◌else◌,
}
use homekey_household.Models.Json.{Json, bool, int, str}
use homekey_household.Models.Errors.{Error, Result, ok, raise}
use homekey_household.Models.Values.{truthy_json}
use homekey_household.Command.Encoding.{Bytes}
use homekey_household.Command.Build.{Crypto}
use homekey_household.Credential.Keys.{Credential, KeyStore, new_store, load, set_from_secret}
use homekey_household.Backup.Settings.{Entry, get_or_null}
use homekey_household.Setup.Household.{is_validation_error, text_or_nothing}

-- What the user gave, as far as the form has it.
pub record OptionsInput : Type 0 where
  pub recovery_secret : Option Text
  pub salt : Option Text
  pub legacy_client_id_prefix : Option Text
  pub command_control : Option Bool
  pub host : Option Text
  pub port : Option ℤ
  pub username : Option Text
  pub password : Option Text
  pub fingerprint : Option Text
  pub include_credentials : Option Bool

-- How the step ends: the form again with an error, the options of the entry, or an exception.
pub data OptionsStep : Type 0 where
  form_again : Text → OptionsStep
  saved : Dict Json → OptionsStep
  exception : Error → OptionsStep

-- `options.get(CONF_PASSWORD, "")`
unfoldable pub password_option : Dict Json → Json
password_option options = elim (lookup (codes "password") options) [ none ↦ str [] | some v ↦ v ]

-- `entry.data.get(CONF_PASSWORD) or current_options.get(CONF_PASSWORD, "")`
unfoldable pub current_password : Entry → Json
unfolding get_or_null truthy_json password_option
current_password entry =
    let v = get_or_null (codes "password") entry.entry_data in
    if truthy_json v then v else password_option entry.options

-- `user_input.get(CONF_PASSWORD) or current_password`
unfoldable pub password_or : Option Text → Json → Json
password_or none current = current
password_or (some p) current = if truthy p then str p else current

abbrev pub text_or : Option Text → Text → Text
text_or none d = d
text_or (some t) d = t

abbrev pub bool_or : Option Bool → Bool → Bool
bool_or none d = d
bool_or (some b) d = b

-- `int(user_input.get(CONF_PORT) or DEFAULT_HTTPS_PORT)`
unfoldable pub port_or : Option ℤ → ℤ
port_or none = pos 443
port_or (some p) = if int_eq p (pos 0) then pos 443 else p

-- `new_options`
unfoldable pub new_options : Entry → OptionsInput → Dict Json
unfolding current_password password_or port_or strip
new_options entry i =
    (codes "legacy_client_id_prefix", str (text_or i.legacy_client_id_prefix (codes "ESP_")))
    ∷ (codes "command_control", bool (bool_or i.command_control true))
    ∷ (codes "host", str (strip (or_text i.host [])))
    ∷ (codes "port", int (port_or i.port))
    ∷ (codes "username", str (or_text i.username []))
    ∷ (codes "password", password_or i.password (current_password entry))
    ∷ (codes "fingerprint", str (strip (or_text i.fingerprint [])))
    ∷ (codes "backup_include_credentials", bool (bool_or i.include_credentials false))
    ∷ []

-- The step once the key was to be stored, and the file after it.
unfoldable pub after_rotation : Dict Json → Result Credential × KeyStore → OptionsStep × Json
unfolding is_validation_error
after_rotation options (ok c, s) = (OptionsStep.saved options, s.file)
after_rotation options (raise e, s) = (
  if is_validation_error e
      then OptionsStep.form_again (codes "invalid_recovery_secret")
      else OptionsStep.exception e,
  s.file,
)

module _ (crypto : Crypto) (sha256_hex : Bytes → Text) where
  -- The new key of the household, in a store that reads the file anew.
  unfoldable pub rotate :
      Text → Dict Json → Text → Option Text → Result (Unit {0}) × KeyStore → OptionsStep × Json
  unfolding set_from_secret after_rotation
  rotate household_id options secret salt (raise e, s) = (OptionsStep.exception e, s.file)
  rotate household_id options secret salt (ok u, s) =
      after_rotation options (set_from_secret sha256_hex crypto household_id secret salt s)

  -- `async_step_init` with an input, for an entry whose data names the household.
  unfoldable pub step_options : Text → Entry → OptionsInput → Json → OptionsStep × Json
  unfolding new_options rotate load new_store
  step_options household_id entry i file =
      let secret = or_text i.recovery_secret [] in
      if truthy secret
      then rotate household_id (new_options entry i) secret (text_or_nothing i.salt)
          (load sha256_hex (new_store file))
      else (OptionsStep.saved (new_options entry i), file)
