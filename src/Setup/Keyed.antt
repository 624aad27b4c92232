-- ===== src/Setup/Keyed.antt =====
-- config_flow.py, credential.py and __init__.py: a household whose secret was given can be commanded.
use homekey_household.Prelude.{
  Text, truthy, or_text, leb, length, lookup-insert_self, All, Bool, true, Bool-cases, Option, some,
  [], ◌≡◌, refl, sym, ap, ◌∙◌, subst, inl, inr,
}
use homekey_household.Models.Json.{Json}
use homekey_household.Models.Errors.{Result, ok, raise, guard, empty_secret, unexpected}
use homekey_household.Models.Parts.{>>=-eq-ok, ok_injective}
use homekey_household.Command.Encoding.{Bytes, Material, key_material, encode_utf8}
use homekey_household.Command.Material.{IsByte}
use homekey_household.Command.Build.{Crypto, command_key_label, derive_command_key}
use homekey_household.Mqtt.Outbound.{MqttClient}
use homekey_household.Credential.Keys.{
  Credential, KeyStore, new_store, new_credential, load, set_key, set_derived, set_from_secret,
  key_of, command_key_of, save,
}
use homekey_household.Credential.Reload.{IsStored}
use homekey_household.Credential.Changes.{Change, apply, apply-IsStored, reload-IsStored}
use homekey_household.Control.Sending.{command_control_enabled, command_key, is_some}
use homekey_household.Setup.Controllers.{mqtt_controller}
use homekey_household.Setup.Household.{
  HouseholdInput, MqttEntry, HouseholdStep, is_validation_error, after_set, keep_key, with_secret,
  with_id, step_household, name_of, text_or_nothing,
}

pub derive_command_key-bytes :
    (crypto : Crypto) (secret salt : Material) (key : Bytes)
    → ((m k : Bytes) → All IsByte (crypto.blake2b m k 32))
    → derive_command_key crypto secret salt ≡ ok key
    → All IsByte key
unfolding derive_command_key
derive_command_key-bytes crypto secret salt key bytes e =
    let (s, read, e) = >>=-eq-ok (key_material secret) _ e in
    let (u, full, e) = >>=-eq-ok (guard (truthy s) empty_secret) _ e in
    let (label, l, e) = >>=-eq-ok (encode_utf8 command_key_label) _ e in
    let (u', short, e) = >>=-eq-ok (guard (leb (length label) 64) unexpected) _ e in
    let (t, salted, e) = >>=-eq-ok (key_material salt) _ e in
    subst (All IsByte) (ok_injective e) (bytes _ label)

-- A key that was set is in the cache, and is not empty.
set_key-lookup :
    (sha256_hex : Bytes → Text) (household_id : Text) (key : Bytes) (salt : Option Text)
    (s : KeyStore) (c : Credential)
    → (set_key sha256_hex household_id key salt s).0 ≡ ok c
    → (truthy key ≡ true)
      × (command_key_of household_id (set_key sha256_hex household_id key salt s).1 ≡ some key)
unfolding set_key new_credential save command_key_of
set_key-lookup sha256_hex household_id key salt s c e = elim (Bool-cases (truthy key)) [
  | inl full ↦ (full, rw full (ap key_of (lookup-insert_self household_id _ s.cache)))
  | inr empty ↦ absurd (let e' = rw empty at e in cc e')
]

-- A step that made an entry stored a credential.
after_set-created :
    (entry made : MqttEntry) (t : Result Credential × KeyStore) (file : Json)
    → after_set entry t ≡ (HouseholdStep.entry_created made, file)
    → (c : Credential) × (t.0 ≡ ok c) × (t.1.file ≡ file) × (entry ≡ made)
unfolding after_set
after_set-created entry made (ok c, s) file e = (c, refl, cc e, cc e)
after_set-created entry made (raise err, s) file e = elim (Bool-cases (is_validation_error err)) [
  | inl v ↦ absurd (let e' = rw v at e in cc e')
  | inr u ↦ absurd (let e' = rw u at e in cc e')
]

enabled :
    (household_id : Text) (keys : KeyStore) (key : Bytes) (client : MqttClient)
    → truthy key ≡ true
    → command_key_of household_id keys ≡ some key
    → command_control_enabled (mqtt_controller household_id true keys client) ≡ true
unfolding command_control_enabled mqtt_controller command_key is_some
enabled household_id keys key client full kept = rw (kept, full) refl

module _ (crypto : Crypto) (sha256_hex : Bytes → Text) where
  -- The file gives a store in which the household has a key that is not empty.
  pub record Keyed (household_id : Text) (file : Json) : Type 0 where
    pub store : KeyStore
    pub reads : load sha256_hex (new_store file) ≡ (ok tt, store)
    pub key : Bytes
    pub full : truthy key ≡ true
    pub kept : command_key_of household_id store ≡ some key

  set_key-Keyed :
      (household_id : Text) (key : Bytes) (salt : Option Text) (s : KeyStore) (c : Credential)
      → All IsByte key
      → IsStored sha256_hex s
      → (set_key sha256_hex household_id key salt s).0 ≡ ok c
      → Keyed household_id (set_key sha256_hex household_id key salt s).1.file
  unfolding command_key_of
  set_key-Keyed household_id key salt s c bytes v e =
      let after = (set_key sha256_hex household_id key salt s).1 in
      let stored : IsStored sha256_hex after =
        unfold apply in apply-IsStored sha256_hex (Change.set_to household_id key salt) s bytes v in
      let (full, there) = set_key-lookup sha256_hex household_id key salt s c e in
      record {
        store = record { cache = after.cache; loaded = true; file = after.file };
        reads = reload-IsStored sha256_hex after stored;
        key = key;
        full = full;
        kept = there;
      }

  pub set_derived-Keyed :
      (household_id : Text) (salt : Option Text) (derived : Result Bytes) (s : KeyStore)
      (c : Credential)
      → ((key : Bytes) → derived ≡ ok key → All IsByte key)
      → IsStored sha256_hex s
      → (set_derived sha256_hex household_id salt derived s).0 ≡ ok c
      → Keyed household_id (set_derived sha256_hex household_id salt derived s).1.file
  unfolding set_derived
  set_derived-Keyed household_id salt (raise err) s c bytes v e = absurd (cc)
  set_derived-Keyed household_id salt (ok key) s c bytes v e =
      set_key-Keyed household_id key salt s c (bytes key refl) v e

  keep_key-Keyed :
      (entry made : MqttEntry) (secret : Text) (salt : Option Text) (s : KeyStore) (file : Json)
      → ((m k : Bytes) → All IsByte (crypto.blake2b m k 32))
      → IsStored sha256_hex s
      → keep_key crypto sha256_hex entry secret salt (ok tt, s)
        ≡ (HouseholdStep.entry_created made, file)
      → Keyed made.household_id file
  unfolding keep_key set_from_secret
  keep_key-Keyed entry made secret salt s file bytes v e =
      let (c, set, wrote, same) = after_set-created entry made _ file e in
      let keyed =
        set_derived-Keyed entry.household_id salt _ s c
          (λ key derived. derive_command_key-bytes crypto _ _ key bytes derived) v set in
      subst (λ m. Keyed m.household_id file) same (subst (Keyed entry.household_id) wrote keyed)

  with_secret-Keyed :
      (entry made : MqttEntry) (secret : Text) (salt : Option Text) (s : KeyStore) (file : Json)
      → ((m k : Bytes) → All IsByte (crypto.blake2b m k 32))
      → IsStored sha256_hex s
      → truthy secret ≡ true
      → with_secret crypto sha256_hex entry secret salt s.file
        ≡ (HouseholdStep.entry_created made, file)
      → Keyed made.household_id file
  with_secret-Keyed entry made secret salt s file bytes v given e =
      let reread : KeyStore = record { cache = s.cache; loaded = true; file = s.file } in
      keep_key-Keyed entry made secret salt reread file bytes
        (record { was_loaded = refl; kept = v.kept; saved = v.saved })
        (ap (keep_key crypto sha256_hex entry secret salt) (sym (reload-IsStored sha256_hex s v))
          ∙ unfold with_secret in rw given at e)

  with_id-Keyed :
      (configured : Text → Bool) (i : HouseholdInput) (r : Result Text) (s : KeyStore)
      (made : MqttEntry) (file : Json)
      → ((m k : Bytes) → All IsByte (crypto.blake2b m k 32))
      → IsStored sha256_hex s
      → truthy (or_text i.recovery_secret []) ≡ true
      → with_id crypto sha256_hex configured i r s.file ≡ (HouseholdStep.entry_created made, file)
      → Keyed made.household_id file
  unfolding with_id
  with_id-Keyed configured i (raise err) s made file bytes v given e = absurd (cc)
  with_id-Keyed configured i (ok household_id) s made file bytes v given e =
      elim (Bool-cases (configured household_id)) [
        | inl there ↦ absurd (let e' = rw there at e in cc e')
        | inr new ↦
            let entry : MqttEntry = record {
              title = name_of i.household_name household_id;
              household_id = household_id;
              household_name = name_of i.household_name household_id;
              command_control = i.command_control;
            } in
            with_secret-Keyed entry made (or_text i.recovery_secret []) (text_or_nothing i.salt) s
              file bytes v given (rw new at e)
      ]

  pub Keyed-enabled :
      (household_id : Text) (file : Json) (client : MqttClient)
      → Keyed household_id file
      → ((load sha256_hex (new_store file)).0 ≡ ok tt)
        × (command_control_enabled
              (mqtt_controller household_id true (load sha256_hex (new_store file)).1 client)
            ≡ true)
  Keyed-enabled household_id file client k = (
    ap (λ t. t.0) k.reads,
    ap (λ t. command_control_enabled (mqtt_controller household_id true t.1 client)) k.reads
        ∙ enabled household_id k.store k.key client k.full k.kept,
  )

  -- When `blake2b` gives bytes, and the household step makes an entry from an input with a recovery
  -- secret, over a file that a store in use had saved: the store that the start of the entry reads from
  -- the new file has a key of the household, so that the entry, with command control on, can send
  -- commands over MQTT.
  pub created_can_command :
      (configured : Text → Bool) (i : HouseholdInput) (s : KeyStore) (made : MqttEntry)
      (file : Json) (client : MqttClient)
      → ((m k : Bytes) → All IsByte (crypto.blake2b m k 32))
      → IsStored sha256_hex s
      → truthy (or_text i.recovery_secret []) ≡ true
      → step_household crypto sha256_hex configured i s.file
        ≡ (HouseholdStep.entry_created made, file)
      → ((load sha256_hex (new_store file)).0 ≡ ok tt)
        × (command_control_enabled
              (mqtt_controller made.household_id true (load sha256_hex (new_store file)).1 client)
            ≡ true)
  unfolding step_household
  created_can_command configured i s made file client bytes v given e =
      Keyed-enabled made.household_id file client
        (with_id-Keyed configured i _ s made file bytes v given e)
