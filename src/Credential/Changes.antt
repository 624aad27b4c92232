-- ===== src/Credential/Changes.antt =====
-- credential.py: any use of a store, and then a restart.
use homekey_household.Prelude.{
  Text, truthy, All, Dict, lookup, true, Option, List, [], ◌∷◌, ◌≡◌, refl, sym, subst, Option-cases,
  Bool-cases, inl, inr,
}
use homekey_household.Models.Json.{Json, null, get}
use homekey_household.Models.Errors.{ok}
use homekey_household.Command.Encoding.{Bytes}
use homekey_household.Command.Material.{IsByte}
use homekey_household.Credential.Keys.{
  Credential, KeyStore, new_credential, new_store, key_fingerprint, load, save, set_key, remove_key,
  entries_of, read_entries, returned,
}
use homekey_household.Credential.Reload.{IsStored, load-file_of, AllKept-insert, AllKept-remove}

-- A change of the store.
pub data Change : Type 0 where
  -- `async_set`
  set_to : Text → Bytes → Option Text → Change
  -- `async_remove`
  removed : Text → Change

-- A key is made of bytes.
abbrev pub HasBytes : Change → Type 0
HasBytes (Change.set_to household_id key salt) = All IsByte key
HasBytes (Change.removed household_id) = Unit

module _ (sha256_hex : Bytes → Text) where
  unfoldable pub apply : Change → KeyStore → KeyStore
  unfolding set_key remove_key
  apply (Change.set_to household_id key salt) s = (set_key sha256_hex household_id key salt s).1
  apply (Change.removed household_id) s = remove_key household_id s

  unfoldable pub apply_all : List Change → KeyStore → KeyStore
  unfolding apply
  apply_all [] s = s
  apply_all (c ∷ rest) s = apply_all rest (apply c s)

  -- A store at the first start, when no file is there.
  unfoldable pub first_start : KeyStore
  unfolding load new_store entries_of read_entries returned get
  first_start = (load sha256_hex (new_store null)).1

  pub first_start-IsStored : IsStored sha256_hex first_start
  unfolding first_start get read_entries
  first_start-IsStored = record { was_loaded = refl; kept = tt; saved = inl (refl, refl) }

  pub apply-IsStored :
      (c : Change) (s : KeyStore)
      → HasBytes c
      → IsStored sha256_hex s
      → IsStored sha256_hex (apply c s)
  unfolding apply save new_credential set_key remove_key key_fingerprint
  apply-IsStored (Change.set_to k key salt) s bytes v = elim (Bool-cases (truthy key)) [
    | inr empty ↦ rw (empty, apply, set_key, new_credential) v
    | inl full ↦
        rw (full, apply, set_key, new_credential)
          (record {
            was_loaded = v.was_loaded;
            kept =
                AllKept-insert sha256_hex k _ s.cache
                  (record { bytes = bytes; not_empty = full; fingerprint = refl }) v.kept;
            saved = inr refl;
          })
  ]
  apply-IsStored (Change.removed k) s bytes v = elim (Option-cases (lookup k s.cache)) [
    | inl absent ↦ rw (absent, apply, remove_key) v
    | inr (c, there) ↦
        rw (there, apply, remove_key)
          (record {
            was_loaded = v.was_loaded;
            kept = AllKept-remove sha256_hex k s.cache v.kept;
            saved = inr refl;
          })
  ]

  apply_all-IsStored :
      (changes : List Change) (s : KeyStore)
      → All HasBytes changes
      → IsStored sha256_hex s
      → IsStored sha256_hex (apply_all changes s)
  unfolding apply_all
  apply_all-IsStored [] s bytes v = v
  apply_all-IsStored (c ∷ rest) s (b, bytes) v =
      apply_all-IsStored rest (apply c s) bytes (apply-IsStored c s b v)

  load-no_file :
      load sha256_hex (new_store null) ≡ (ok tt, record { cache = []; loaded = true; file = null })
  unfolding load new_store entries_of read_entries returned get
  load-no_file = refl

  abbrev pub Reloads : Dict Credential → Json → Type 0
  Reloads cache file =
      load sha256_hex (new_store file)
      ≡ (ok tt, record { cache = cache; loaded = true; file = file })

  pub reload-IsStored : (s : KeyStore) → IsStored sha256_hex s → Reloads s.cache s.file
  reload-IsStored s v = elim v.saved [
    | inl (empty, no_file) ↦
        subst (λ cache. Reloads cache s.file) (sym empty)
          (subst (Reloads []) (sym no_file) load-no_file)
    | inr same ↦ subst (Reloads s.cache) (sym same) (load-file_of sha256_hex s.cache v.kept)
  ]

  -- After any changes since the first start, a store that reads the file anew holds exactly the
  -- credentials that the old one held: every key, salt and fingerprint, and no other household.
  pub reload-apply_all :
      (changes : List Change)
      → All HasBytes changes
      → let s = apply_all changes first_start in
        load sha256_hex (new_store s.file)
        ≡ (ok tt, record { cache = s.cache; loaded = true; file = s.file })
  reload-apply_all changes bytes =
      reload-IsStored _ (apply_all-IsStored changes first_start bytes first_start-IsStored)
