-- ===== src/Setup/Rotation.antt =====
-- config_flow.py, `HomeKeyHouseholdOptionsFlow`: what the saved options and the rotated key give.
use homekey_household.Prelude.{
  ◌||◌, All, sym, subst, true, ap, Text, codes, truthy, strip, or_text, Dict, Bool-cases, ◌&&◌,
  Option, some, [], ◌≡◌, refl, ◌∙◌, inl, inr,
}
use homekey_household.Models.Json.{Json}
use homekey_household.Models.Errors.{Result, ok, raise}
use homekey_household.Models.Values.{truthy_json}
use homekey_household.Command.Encoding.{Bytes}
use homekey_household.Command.Build.{Crypto}
use homekey_household.Credential.Keys.{Credential, KeyStore, new_store, load, set_from_secret}
use homekey_household.Backup.Settings.{
  Entry, Transport, update, get_or_null, entry_settings, entry_backup_settings, backup_client_for,
}
use homekey_household.Setup.Household.{is_validation_error, text_or_nothing}
use homekey_household.Command.Material.{IsByte}
use homekey_household.Mqtt.Outbound.{MqttClient}
use homekey_household.Credential.Reload.{IsStored}
use homekey_household.Credential.Changes.{reload-IsStored}
use homekey_household.Control.Sending.{command_control_enabled}
use homekey_household.Setup.Controllers.{mqtt_controller}
use homekey_household.Setup.Keyed.{
  Keyed, Keyed-enabled, set_derived-Keyed, derive_command_key-bytes,
}
use homekey_household.Setup.Options.{
  OptionsInput, OptionsStep, new_options, after_rotation, rotate, step_options,
}
use homekey_household.Setup.Settings.{
  IsPassword, password_or-IsPassword, new_options-password, new_options-backup_client_for,
}

-- A step that saved options kept the credential, with the file that it wrote.
after_rotation-saved :
    (options opts : Dict Json) (t : Result Credential × KeyStore) (file : Json)
    → after_rotation options t ≡ (OptionsStep.saved opts, file)
    → (c : Credential) × (t.0 ≡ ok c) × (t.1.file ≡ file) × (opts ≡ options)
unfolding after_rotation
after_rotation-saved options opts (ok c, s) file e = (c, refl, cc e, cc e)
after_rotation-saved options opts (raise err, s) file e =
    elim (Bool-cases (is_validation_error err)) [
      | inl v ↦ absurd (let e' = rw v at e in cc e')
      | inr u ↦ absurd (let e' = rw u at e in cc e')
    ]

module _ (crypto : Crypto) (sha256_hex : Bytes → Text) where
  rotate-saved :
      (household_id : Text) (options opts : Dict Json) (secret : Text) (salt : Option Text)
      (t : Result (Unit {0}) × KeyStore) (file : Json)
      → rotate crypto sha256_hex household_id options secret salt t ≡ (OptionsStep.saved opts, file)
      → opts ≡ options
  unfolding rotate
  rotate-saved household_id options opts secret salt (raise err, s) file e = absurd (cc)
  rotate-saved household_id options opts secret salt (ok u, s) file e =
      let (c, set, wrote, same) = after_rotation-saved options opts _ file e in same

  step_options-saved :
      (household_id : Text) (entry : Entry) (i : OptionsInput) (file : Json) (opts : Dict Json)
      (file' : Json)
      → step_options crypto sha256_hex household_id entry i file ≡ (OptionsStep.saved opts, file')
      → opts ≡ new_options entry i
  unfolding step_options
  step_options-saved household_id entry i file opts file' e =
      elim (Bool-cases (truthy (or_text i.recovery_secret []))) [
        | inl given ↦
            rotate-saved household_id (new_options entry i) opts (or_text i.recovery_secret [])
              (text_or_nothing i.salt) (load sha256_hex (new_store file)) file' (rw given at e)
        | inr blank ↦ let e' = rw blank at e in cc e'
      ]

  -- When the options step saves options for an entry, and these take the place of the former ones:
  -- the password in the entry's settings is the one given or, if none was given, the one of the entry's
  -- data or else of the former options; and a backup can be taken for the entry exactly when the host
  -- and the fingerprint that were given are not blank, the user name is not the empty text, and there is
  -- a password of one of the three kinds, whatever the entry's data says of the host, the fingerprint
  -- and the user name.
  pub saved-backup_client_for :
      (household_id : Text) (entry : Entry) (i : OptionsInput) (file : Json) (opts : Dict Json)
      (file' : Json) (transport : Transport)
      → step_options crypto sha256_hex household_id entry i file ≡ (OptionsStep.saved opts, file')
      → let settings = entry_backup_settings (record {
        entry = some (record { entry_data = entry.entry_data; options = opts });
        household_id = household_id;
        transport = transport;
      }) in
        IsPassword (or_text i.password []) entry (get_or_null (codes "password") settings)
        × (backup_client_for settings ≡ (
            truthy (strip (or_text i.host []))
            && truthy (strip (or_text i.fingerprint []))
            && truthy (or_text i.username [])
            && (truthy (or_text i.password [])
                || truthy_json (get_or_null (codes "password") entry.entry_data)
                || truthy_json (get_or_null (codes "password") entry.options))))
  unfolding entry_backup_settings entry_settings
  saved-backup_client_for household_id entry i file opts file' transport e =
      let d = update [] entry.entry_data in
      rw (step_options-saved household_id entry i file opts file' e) (
        subst (IsPassword (or_text i.password []) entry)
            (sym (new_options-password household_id entry i d))
            (password_or-IsPassword i.password entry),
        new_options-backup_client_for household_id entry i d,
      )

  rotate-Keyed :
      (household_id : Text) (options opts : Dict Json) (secret : Text) (salt : Option Text)
      (s : KeyStore) (file : Json)
      → ((m k : Bytes) → All IsByte (crypto.blake2b m k 32))
      → IsStored sha256_hex s
      → rotate crypto sha256_hex household_id options secret salt (ok tt, s)
        ≡ (OptionsStep.saved opts, file)
      → Keyed crypto sha256_hex household_id file
  unfolding rotate set_from_secret
  rotate-Keyed household_id options opts secret salt s file bytes v e =
      let (c, set, wrote, same) = after_rotation-saved options opts _ file e in
      subst (Keyed crypto sha256_hex household_id) wrote (
        set_derived-Keyed crypto sha256_hex household_id salt _ s c
          (λ key derived. derive_command_key-bytes crypto _ _ key bytes derived) v set)

  -- When `blake2b` gives bytes, and the options step saves options from an input with a recovery secret,
  -- over a file that a store in use had saved: the store that the next start of the entry reads from
  -- the new file is read without an error, and the entry, with command control on, can send commands
  -- over MQTT.
  pub rotated_can_command :
      (household_id : Text) (entry : Entry) (i : OptionsInput) (s : KeyStore) (opts : Dict Json)
      (file : Json) (client : MqttClient)
      → ((m k : Bytes) → All IsByte (crypto.blake2b m k 32))
      → IsStored sha256_hex s
      → truthy (or_text i.recovery_secret []) ≡ true
      → step_options crypto sha256_hex household_id entry i s.file ≡ (OptionsStep.saved opts, file)
      → ((load sha256_hex (new_store file)).0 ≡ ok tt)
        × (command_control_enabled
              (mqtt_controller household_id true (load sha256_hex (new_store file)).1 client)
            ≡ true)
  unfolding step_options
  rotated_can_command household_id entry i s opts file client bytes v given e =
      let reread : KeyStore = record { cache = s.cache; loaded = true; file = s.file } in
      let k =
        rotate-Keyed household_id (new_options entry i) opts (or_text i.recovery_secret [])
          (text_or_nothing i.salt) reread file bytes
          (record { was_loaded = refl; kept = v.kept; saved = v.saved })
          (ap
              (rotate crypto sha256_hex household_id (new_options entry i)
                (or_text i.recovery_secret []) (text_or_nothing i.salt))
              (sym (reload-IsStored sha256_hex s v))
            ∙ rw given at e) in
      Keyed-enabled crypto sha256_hex household_id file client k
