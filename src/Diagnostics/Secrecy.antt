-- ===== src/Diagnostics/Secrecy.antt =====
-- diagnostics.py, `_redact`: what a report can tell of a value.
use homekey_household.Prelude.{
  Text, true, false, Bool-cases, ◌≡◌, refl, sym, ap, ◌∙◌, if◌then◌else◌, inl, inr,
}
use homekey_household.Models.Json.{Json, null, bool, int, float, str, arr, obj, Items, Fields}
use homekey_household.Diagnostics.{is_secret, redact, redact_items, redact_fields, redacted}

-- Two values that differ only under secret keys, where `key` is the one that they stand under.
mutual
  pub data Alike : Text → Json → Json → Type 0 where
    hidden : {key : Text} {v w : Json} → is_secret key ≡ true → Alike key v w
    equal : {key : Text} {v : Json} → Alike key v v
    lists : {key : Text} {vs ws : Items} → AlikeItems key vs ws → Alike key (arr vs) (arr ws)
    objects : {key : Text} {fs gs : Fields} → AlikeFields fs gs → Alike key (obj fs) (obj gs)

  pub data AlikeItems : Text → Items → Items → Type 0 where
    none_left : {key : Text} → AlikeItems key Items.nil Items.nil
    both :
        {key : Text} {v w : Json} {vs ws : Items}
        → Alike key v w
        → AlikeItems key vs ws
        → AlikeItems key (Items.cons v vs) (Items.cons w ws)

  pub data AlikeFields : Fields → Fields → Type 0 where
    no_field : AlikeFields Fields.end Fields.end
    under :
        {key : Text} {v w : Json} {fs gs : Fields}
        → Alike key v w
        → AlikeFields fs gs
        → AlikeFields (Fields.field key v fs) (Fields.field key w gs)

redact_secret : (v : Json) (key : Text) → is_secret key ≡ true → redact v key ≡ redacted
unfolding redact
redact_secret null key h = rw h refl
redact_secret (bool b) key h = rw h refl
redact_secret (int n) key h = rw h refl
redact_secret (float x) key h = rw h refl
redact_secret (str s) key h = rw h refl
redact_secret (arr vs) key h = rw h refl
redact_secret (obj fs) key h = rw h refl

mutual
  unfolding redact redact_items redact_fields

  redact-Alike : {key : Text} {v w : Json} → Alike key v w → redact v key ≡ redact w key
  redact-Alike {key} {v} {w} (Alike.hidden h) = redact_secret v key h ∙ sym (redact_secret w key h)
  redact-Alike Alike.equal = refl
  redact-Alike {key} (Alike.lists a) =
      ap (λ us. if is_secret key then redacted else arr us) (redact_items-Alike a)
  redact-Alike {key} (Alike.objects a) =
      ap (λ us. if is_secret key then redacted else obj us) (redact_fields-Alike a)

  redact_items-Alike :
      {key : Text} {vs ws : Items}
      → AlikeItems key vs ws
      → redact_items vs key ≡ redact_items ws key
  redact_items-Alike AlikeItems.none_left = refl
  redact_items-Alike (AlikeItems.both a rest) = cc (redact-Alike a, redact_items-Alike rest)

  redact_fields-Alike : {fs gs : Fields} → AlikeFields fs gs → redact_fields fs ≡ redact_fields gs
  redact_fields-Alike AlikeFields.no_field = refl
  redact_fields-Alike (AlikeFields.under a rest) = cc (redact-Alike a, redact_fields-Alike rest)

-- Under a secret key nothing is compared.
unless_secret :
    (v : Json) (key : Text)
    → (is_secret key ≡ false → Alike key v (redact v key))
    → Alike key v (redact v key)
unless_secret v key h = elim (Bool-cases (is_secret key)) [
  | inl secret ↦ Alike.hidden secret
  | inr plain ↦ h plain
]

mutual
  unfolding redact redact_items redact_fields

  Alike-redact : (v : Json) (key : Text) → Alike key v (redact v key)
  Alike-redact null key = unless_secret null key (λ h. rw h Alike.equal)
  Alike-redact (bool b) key = unless_secret (bool b) key (λ h. rw h Alike.equal)
  Alike-redact (int n) key = unless_secret (int n) key (λ h. rw h Alike.equal)
  Alike-redact (float x) key = unless_secret (float x) key (λ h. rw h Alike.equal)
  Alike-redact (str s) key = unless_secret (str s) key (λ h. rw h Alike.equal)
  Alike-redact (arr vs) key =
      let items = AlikeItems-redact vs key in
      unless_secret (arr vs) key (λ h. rw h (Alike.lists items))
  Alike-redact (obj fs) key =
      let fields = AlikeFields-redact fs in
      unless_secret (obj fs) key (λ h. rw h (Alike.objects fields))

  AlikeItems-redact : (vs : Items) (key : Text) → AlikeItems key vs (redact_items vs key)
  AlikeItems-redact Items.nil key = AlikeItems.none_left
  AlikeItems-redact (Items.cons v vs) key =
      AlikeItems.both (Alike-redact v key) (AlikeItems-redact vs key)

  AlikeFields-redact : (fs : Fields) → AlikeFields fs (redact_fields fs)
  AlikeFields-redact Fields.end = AlikeFields.no_field
  AlikeFields-redact (Fields.field k v fs) =
      AlikeFields.under (Alike-redact v k) (AlikeFields-redact fs)

-- A report tells exactly as much as it may: two values that differ only under secret keys, in any depth
-- of objects and lists, have the same redaction, and the redaction of a value differs from it only
-- under secret keys; so redacting again changes nothing.
pub redact_hides :
    (v : Json) (key : Text)
    → ((w : Json) → Alike key v w → redact v key ≡ redact w key)
      × Alike key v (redact v key)
      × (redact (redact v key) key ≡ redact v key)
redact_hides v key =
    (λ w a. redact-Alike a, Alike-redact v key, sym (redact-Alike (Alike-redact v key)))
