-- ===== src/Credential/Reload.antt =====
-- credential.py: what `CommandKeyStore` saved, a new store reads back.
use homekey_household.Prelude.{
  Text, text_eq, text_eq_iff, truthy, All, Dict, lookup, insert, remove, true, false, Option, none,
  some, [], ◌∷◌, ◌++◌, ◌≡◌, refl, sym, ap, ◌∙◌, ◌⊎◌, subst, arith, append_assoc, append-nil,
  insert_absent, lookup-insert, Bool-cases, inl, inr,
}
use homekey_household.Models.Json.{null, get}
use homekey_household.Models.Errors.{ok}
use homekey_household.Models.Values.{truthy_json, mapping, object_or_none, text_or_none}
use homekey_household.Models.Guest.{object_or_empty}
use homekey_household.Command.Encoding.{Bytes, to_hex}
use homekey_household.Command.Material.{IsByte}
use homekey_household.Credential.Hex.{parse_hex-to_hex}
use homekey_household.Credential.Keys.{
  Credential, KeyStore, new_credential, new_store, key_fingerprint, stored_credential, payload_of,
  households_of, file_of, read_entries, entries_of, load, salt_of, with_salt, returned,
}

module _ (sha256_hex : Bytes → Text) where
  -- What the store keeps of a household: a key of bytes that is not empty, with its fingerprint.
  pub record IsKept (c : Credential) : Type 0 where
    pub bytes : All IsByte c.key
    pub not_empty : truthy c.key ≡ true
    pub fingerprint : c.fingerprint ≡ some (key_fingerprint sha256_hex c.key)

  abbrev pub AllKept : Dict Credential → Type 0
  AllKept [] = Unit
  AllKept ((k, c) ∷ d) = (lookup k d ≡ none) × IsKept c × AllKept d

  to_hex-truthy : (key : Bytes) → truthy key ≡ true → truthy (to_hex key) ≡ true
  unfolding to_hex
  to_hex-truthy [] h = h
  to_hex-truthy (b ∷ bs) h = refl

  -- A credential with the fingerprint of its key.
  abbrev marked : Bytes → Option Text → Credential
  marked key salt = record {
    key = key;
    salt = salt;
    fingerprint = some (key_fingerprint sha256_hex key);
  }

  stored_credential-marked :
      (key : Bytes) (salt : Option Text)
      → All IsByte key
      → truthy key ≡ true
      → stored_credential sha256_hex (payload_of (marked key salt)) ≡ ok (some (marked key salt))
  unfolding stored_credential payload_of text_or_none new_credential salt_of with_salt get text_eq
      object_or_none
  stored_credential-marked key none bytes full =
      rw (to_hex-truthy key full, parse_hex-to_hex key bytes, full) refl
  stored_credential-marked key (some t) bytes full =
      rw (to_hex-truthy key full, parse_hex-to_hex key bytes, full) refl

  stored_credential-payload_of :
      (c : Credential) → IsKept c → stored_credential sha256_hex (payload_of c) ≡ ok (some c)
  stored_credential-payload_of c k =
      let same : marked c.key c.salt ≡ c = cc k.fingerprint in
      subst (λ d. stored_credential sha256_hex (payload_of d) ≡ ok (some d)) same
        (stored_credential-marked c.key c.salt k.bytes k.not_empty)

  -- No key of one dictionary is in the other.
  abbrev Apart : Dict Credential → Dict Credential → Type 0
  Apart [] acc = Unit
  Apart ((k, c) ∷ d) acc = (lookup k acc ≡ none) × Apart d acc

  lookup_snoc :
      (j k : Text) (c : Credential) (d : Dict Credential)
      → lookup j d ≡ none
      → text_eq k j ≡ false
      → lookup j (d ++ ((k, c) ∷ [])) ≡ none
  unfolding lookup
  lookup_snoc j k c [] h ne = rw ne
  lookup_snoc j k c ((i, e) ∷ d) h ne = ground (arith, lookup_snoc j k c d)

  Apart-snoc :
      (d acc : Dict Credential) (k : Text) (c : Credential)
      → Apart d acc
      → lookup k d ≡ none
      → Apart d (acc ++ ((k, c) ∷ []))
  unfolding lookup
  Apart-snoc [] acc k c a h = tt
  Apart-snoc ((j, e) ∷ d) acc k c (new, a) h = (
    lookup_snoc j k c acc new (ground (arith, text_eq_iff j k, text_eq_iff k j)),
    Apart-snoc d acc k c a (ground arith),
  )

  read_entries-households_of :
      (d acc : Dict Credential)
      → AllKept d
      → Apart d acc
      → read_entries sha256_hex (households_of d) acc ≡ (ok tt, acc ++ d)
  unfolding read_entries households_of
  read_entries-households_of [] acc kept apart = ap (λ x. (ok tt, x)) (sym (append-nil acc))
  read_entries-households_of ((k, c) ∷ d) acc (new, kept, rest) (fresh, apart) =
      rw (stored_credential-payload_of c kept, insert_absent k c acc fresh)
        (read_entries-households_of d (acc ++ ((k, c) ∷ [])) rest (Apart-snoc d acc k c apart new)
          ∙ ap (λ x. (ok tt, x)) (append_assoc acc ((k, c) ∷ []) d))

  Apart-nil : (d : Dict Credential) → Apart d []
  unfolding lookup
  Apart-nil [] = tt
  Apart-nil ((k, c) ∷ d) = (refl, Apart-nil d)

  pub load-file_of :
      (d : Dict Credential)
      → AllKept d
      → load sha256_hex (new_store (file_of d))
        ≡ (ok tt, record { cache = d; loaded = true; file = file_of d })
  unfolding load new_store file_of entries_of truthy_json mapping object_or_empty get text_eq
      returned
  load-file_of d kept = rw (read_entries-households_of d [] kept (Apart-nil d)) refl

  -- A store in use: it was loaded, its file is empty or what it saved last, and what it keeps is good.
  pub record IsStored (s : KeyStore) : Type 0 where
    pub was_loaded : s.loaded ≡ true
    pub kept : AllKept s.cache
    pub saved : ((s.cache ≡ []) × (s.file ≡ null)) ⊎ (s.file ≡ file_of s.cache)

  lookup-remove-none :
      (j k : Text) (d : Dict Credential) → lookup j d ≡ none → lookup j (remove k d) ≡ none
  unfolding lookup remove
  lookup-remove-none j k [] h = refl
  lookup-remove-none j k ((i, e) ∷ d) h = ground (arith, lookup-remove-none j k d)

  pub AllKept-remove : (k : Text) (d : Dict Credential) → AllKept d → AllKept (remove k d)
  unfolding remove
  AllKept-remove k [] a = tt
  AllKept-remove k ((i, e) ∷ d) (new, kept, rest) = elim (Bool-cases (text_eq i k)) [
    | inl here ↦ rw here rest
    | inr other ↦ rw other (lookup-remove-none i k d new, kept, AllKept-remove k d rest)
  ]

  pub AllKept-insert :
      (k : Text) (c : Credential) (d : Dict Credential)
      → IsKept c
      → AllKept d
      → AllKept (insert k c d)
  unfolding insert
  AllKept-insert k c [] good a = (unfold lookup in refl, good, tt)
  AllKept-insert k c ((i, e) ∷ d) good (new, kept, rest) = elim (Bool-cases (text_eq i k)) [
    | inl here ↦ rw here (new, good, rest)
    | inr other ↦ rw other (
      lookup-insert k i c d ∙ ground (arith, new, text_eq_iff k i, text_eq_iff i k),
      kept,
      AllKept-insert k c d good rest,
    )
  ]
