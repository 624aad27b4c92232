-- ===== src/Credential/Keys.antt =====
-- credential.py, `CommandCredential` and `CommandKeyStore`. Home Assistant's `Store` is the JSON value
-- that its file holds: what was saved last, or null.
use homekey_household.Prelude.{
  ℕ, Text, codes, truthy, take, leb, ◌==◌, Dict, lookup, insert, remove, Bool, true, false, ◌&&◌,
  ◌||◌, ◌+◌, ◌*◌, Option, none, some, [], ◌∷◌, if◌then◌else◌,
}
use homekey_household.Models.Json.{Json, null, str, obj, Fields, get}
use homekey_household.Models.Errors.{Result, ok, raise, ◌>>=◌, empty_key}
use homekey_household.Models.Values.{object_or_none, text_or_none, truthy_json, mapping}
use homekey_household.Models.Guest.{object_or_empty}
use homekey_household.Command.Encoding.{Bytes, is_hex, hex_value, to_hex, text}
use homekey_household.Command.Build.{Crypto, derive_command_key}

pub record Credential : Type 0 where
  pub key : Bytes
  pub salt : Option Text
  pub fingerprint : Option Text

-- The constructor, with `__post_init__`.
unfoldable pub new_credential : Bytes → Option Text → Option Text → Result Credential
new_credential key salt fingerprint =
    if truthy key
    then ok (record { key = key; salt = salt; fingerprint = fingerprint })
    else raise empty_key

pub record KeyStore : Type 0 where
  pub cache : Dict Credential
  pub loaded : Bool
  pub file : Json

unfoldable pub new_store : Json → KeyStore
new_store file = record { cache = []; loaded = false; file = file }

-- The white space that `bytes.fromhex` skips.
unfoldable pub is_ascii_space : ℕ → Bool
is_ascii_space c = (leb 9 c && leb c 13) || c == 32

-- `bytes.fromhex`, where `none` is ValueError: pairs of digits, with white space between them.
unfoldable pub parse_hex : Text → Option Bytes
unfolding is_ascii_space is_hex hex_value
parse_hex [] = some []
parse_hex (c ∷ []) = if is_ascii_space c then some [] else none
parse_hex (c ∷ d ∷ s) =
    let skipped = parse_hex (d ∷ s) in
    let rest = parse_hex s in
    if is_ascii_space c
    then skipped
    else if is_hex c && is_hex d
    then elim rest [ none ↦ none | some bs ↦ some ((hex_value c * 16 + hex_value d) ∷ bs) ]
    else none

unfoldable pub salt_of : Json → Option Text
salt_of (str s) = some s
salt_of _ = none

-- `async_set_from_secret`: `salt or ""`
abbrev pub salt_or_empty : Option Text → Text
salt_or_empty none = []
salt_or_empty (some s) = s

-- `None` is null.
unfoldable pub optional_json : Option Text → Json
optional_json none = null
optional_json (some t) = str t

-- `**({"salt": salt} if salt is not None else {})`
unfoldable pub with_salt : Option Text → Fields → Fields
with_salt none fs = fs
with_salt (some s) fs = Fields.field (codes "salt") (str s) fs

-- The entry of the file for one credential.
unfoldable pub payload_of : Credential → Json
unfolding to_hex optional_json with_salt
payload_of c = obj (
    Fields.field (codes "key") (str (to_hex c.key)) (
      with_salt c.salt
        (Fields.field (codes "fingerprint") (optional_json c.fingerprint) Fields.end)))

unfoldable pub households_of : Dict Credential → Fields
unfolding payload_of
households_of [] = Fields.end
households_of ((household_id, c) ∷ rest) =
    Fields.field household_id (payload_of c) (households_of rest)

-- What `_async_save` writes.
unfoldable pub file_of : Dict Credential → Json
unfolding households_of
file_of cache = obj (Fields.field (codes "households") (obj (households_of cache)) Fields.end)

unfoldable pub save : KeyStore → KeyStore
unfolding file_of
save s = record s { file = file_of s.cache }

unfoldable pub returned {ℓ} : {A : Type ℓ} → Result A → Bool
returned (ok a) = true
returned (raise e) = false

-- The end of `async_set`: an exception leaves the store as it was.
abbrev pub keep_credential : Text → Result Credential → KeyStore → Result Credential × KeyStore
keep_credential household_id (raise e) s = (raise e, s)
keep_credential household_id (ok c) s =
    (ok c, save (record s { cache = insert household_id c s.cache }))

-- `hashlib.sha256(…).hexdigest()` is a parameter.
module _ (sha256_hex : Bytes → Text) where
  unfoldable pub key_fingerprint : Bytes → Text
  key_fingerprint key = take 8 (sha256_hex key)

  -- One entry of the file: nothing where it is passed over.
  unfoldable pub stored_credential : Json → Result (Option Credential)
  unfolding object_or_none text_or_none parse_hex salt_of new_credential key_fingerprint
  stored_credential payload = elim (object_or_none payload) [
    | none ↦ ok none
    | some fs ↦ elim (text_or_none (get fs (codes "key"))) [
      | none ↦ ok none
      | some key_hex ↦ elim (parse_hex key_hex) [
        | none ↦ ok none
        | some key ↦ do
          c ← new_credential key (salt_of (get fs (codes "salt"))) (some (key_fingerprint key))
          ok (some c)
      ]
    ]
  ]

  abbrev pub file_under : Text → Option Credential → Dict Credential → Dict Credential
  file_under household_id none cache = cache
  file_under household_id (some c) cache = insert household_id c cache

  -- What one entry adds, and the entries after it.
  abbrev pub read_next :
      Text
      → Result (Option Credential)
      → Dict Credential
      → (Dict Credential → Result (Unit {0}) × Dict Credential)
      → Result (Unit {0}) × Dict Credential
  read_next household_id (raise e) cache rest = (raise e, cache)
  read_next household_id (ok c) cache rest = rest (file_under household_id c cache)

  -- The loop over the entries: what was read before an exception stays in the cache.
  unfoldable pub read_entries : Fields → Dict Credential → Result (Unit {0}) × Dict Credential
  unfolding stored_credential
  read_entries Fields.end cache = (ok tt, cache)
  read_entries (Fields.field household_id payload rest) cache =
      read_next household_id (stored_credential payload) cache (read_entries rest)

  -- `async_load() or {}` and `raw.get("households", {})`: what is no object holds no entries.
  unfoldable pub entries_of : Json → Result Fields
  unfolding truthy_json mapping object_or_empty
  entries_of raw = do
    fs ← if truthy_json raw then mapping raw else ok Fields.end
    ok (object_or_empty (get fs (codes "households")))

  -- `async_load`
  unfoldable pub load : KeyStore → Result (Unit {0}) × KeyStore
  unfolding entries_of read_entries returned
  load s = if s.loaded then (ok tt, s) else elim (entries_of s.file) [
    | raise e ↦ (raise e, s)
    | ok entries ↦
        let (r, cache) = read_entries entries s.cache in
        (r, record s { cache = cache; loaded = returned r })
  ]

  -- `async_set`
  unfoldable pub set_key : Text → Bytes → Option Text → KeyStore → Result Credential × KeyStore
  unfolding new_credential
  set_key household_id key salt s =
      keep_credential household_id (new_credential key salt (some (key_fingerprint key))) s

  -- What follows the derivation of the key.
  unfoldable pub set_derived :
      Text → Option Text → Result Bytes → KeyStore → Result Credential × KeyStore
  unfolding set_key
  set_derived household_id salt (raise e) s = (raise e, s)
  set_derived household_id salt (ok key) s = set_key household_id key salt s

  -- `async_set_from_secret`
  unfoldable pub set_from_secret :
      Crypto → Text → Text → Option Text → KeyStore → Result Credential × KeyStore
  unfolding set_derived
  set_from_secret crypto household_id recovery_secret salt s =
      set_derived household_id salt
        (derive_command_key crypto (text recovery_secret) (text (salt_or_empty salt))) s

-- `async_remove`, by what the cache holds: only a removed entry is saved.
abbrev pub drop_key : Option Credential → Text → KeyStore → KeyStore
drop_key none household_id s = s
drop_key (some c) household_id s = save (record s { cache = remove household_id s.cache })

unfoldable pub remove_key : Text → KeyStore → KeyStore
unfolding save
remove_key household_id s = drop_key (lookup household_id s.cache) household_id s

abbrev pub key_of : Option Credential → Option Bytes
key_of none = none
key_of (some c) = some c.key

-- `_command_key`: the key of a household, if there is one.
unfoldable pub command_key_of : Text → KeyStore → Option Bytes
command_key_of household_id s = key_of (lookup household_id s.cache)
