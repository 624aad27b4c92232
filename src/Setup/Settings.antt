-- ===== src/Setup/Settings.antt =====
-- config_flow.py and backup.py: the settings that the options of an entry give for its backups.
use homekey_household.Prelude.{
  ◌||◌, ◌⊎◌, Option-cases, sym, subst, Bool, true, lookup-insert, ap, if◌then◌else◌, Text, codes,
  text_eq, truthy, strip, or_text, lookup, insert, lookup-insert_ne, Dict, false, Bool-cases, ◌&&◌,
  Option, none, some, [], ◌∷◌, ◌≡◌, refl, ◌∙◌, inl, inr,
}
use homekey_household.Models.Json.{Json, str}
use homekey_household.Models.Values.{truthy_json}
use homekey_household.Backup.Settings.{Entry, update, get_or_null, backup_client_for}
use homekey_household.Setup.Options.{
  password_option, OptionsInput, current_password, password_or, new_options,
}

-- A first choice, or else a second one.
or_else : Option Json → Option Json → Option Json
or_else none o = o
or_else (some v) o = some v

-- What an update writes last under a key.
final : Text → Dict Json → Option Json
final k [] = none
final k ((j, v) ∷ new) = or_else (final k new) (if text_eq j k then some v else none)

or_else_next :
    (o o' : Option Json) (b : Bool) (v : Json)
    → or_else o (if b then some v else o') ≡ or_else (or_else o (if b then some v else none)) o'
unfolding or_else
or_else_next none o' true v = refl
or_else_next none o' false v = refl
or_else_next (some w) o' b v = refl

lookup-update :
    (k : Text) (new d : Dict Json) → lookup k (update d new) ≡ or_else (final k new) (lookup k d)
unfolding update final or_else
lookup-update k [] d = refl
lookup-update k ((j, v) ∷ new) d =
    lookup-update k new (insert j v d)
    ∙ ap (or_else (final k new)) (lookup-insert j k v d)
    ∙ or_else_next (final k new) (lookup k d) (text_eq j k) v

-- The settings of a backup have what the options give, since the household's id stands elsewhere.
get-settings :
    (j k : Text) (u v : Json) (new d : Dict Json)
    → text_eq j k ≡ false
    → final k new ≡ some v
    → get_or_null k (insert j u (update d new)) ≡ v
unfolding get_or_null or_else
get-settings j k u v new d h e =
    rw (get_or_null, lookup-insert_ne j k u (update d new) h, lookup-update k new d, e) refl

backup_client_for_lem :
    (d : Dict Json) (h f u p : Json)
    → get_or_null (codes "host") d ≡ h
    → get_or_null (codes "fingerprint") d ≡ f
    → get_or_null (codes "username") d ≡ u
    → get_or_null (codes "password") d ≡ p
    → backup_client_for d ≡ (truthy_json h && truthy_json f && truthy_json u && truthy_json p)
unfolding backup_client_for
backup_client_for_lem d h f u p eh ef eu ep = rw (eh, ef, eu, ep) refl

-- Which password the options keep: the one given; or, if none was given, the one of the entry's data;
-- or, if there is none either, the one of the former options, blank where they had none.
abbrev pub IsPassword : Text → Entry → Json → Type 0
IsPassword given entry v =
    let former = get_or_null (codes "password") entry.entry_data in
    let option = lookup (codes "password") entry.options in
    ((truthy given ≡ true) × (v ≡ str given))
    ⊎ (((truthy given ≡ false) × (truthy_json former ≡ true) × (v ≡ former))
        ⊎ ((truthy given ≡ false)
            × (truthy_json former ≡ false)
            × ((option ≡ some v) ⊎ ((option ≡ none) × (v ≡ str [])))))

password_option_cases :
    (options : Dict Json)
    → (lookup (codes "password") options ≡ some (password_option options))
      ⊎ ((lookup (codes "password") options ≡ none) × (password_option options ≡ str []))
unfolding password_option
password_option_cases options = elim (Option-cases (lookup (codes "password") options)) [
  | inl absent ↦ inr (absent, rw (password_option, absent) refl)
  | inr (v, there) ↦ inl (rw (password_option, there) refl)
]

current_password_blank :
    (given : Text) (entry : Entry)
    → truthy given ≡ false
    → IsPassword given entry (current_password entry)
unfolding current_password get_or_null
current_password_blank given entry blank =
    let former = get_or_null (codes "password") entry.entry_data in
    elim (Bool-cases (truthy_json former)) [
      | inl kept ↦ inr (inl (blank, kept, rw (current_password, kept) refl))
      | inr none_kept ↦
          let same : current_password entry ≡ password_option entry.options =
            rw (current_password, none_kept) refl in
          inr (
            inr (
              blank,
              none_kept,
              subst
                  (λ v.
                    (lookup (codes "password") entry.options ≡ some v)
                    ⊎ ((lookup (codes "password") entry.options ≡ none) × (v ≡ str [])))
                  (sym same) (password_option_cases entry.options),
            ))
    ]

pub password_or-IsPassword :
    (given : Option Text) (entry : Entry)
    → IsPassword (or_text given []) entry (password_or given (current_password entry))
unfolding password_or
password_or-IsPassword none entry = current_password_blank [] entry refl
password_or-IsPassword (some []) entry = current_password_blank [] entry refl
password_or-IsPassword (some (c ∷ p)) entry = inl (refl, refl)

-- A password is kept if one was given or one was kept before.
IsPassword-truthy :
    (given : Text) (entry : Entry) (v : Json)
    → IsPassword given entry v
    → truthy_json v ≡ (
        truthy given
        || truthy_json (get_or_null (codes "password") entry.entry_data)
        || truthy_json (get_or_null (codes "password") entry.options))
unfolding get_or_null truthy_json
IsPassword-truthy given entry v (inl (full, same)) = rw (same, full) refl
IsPassword-truthy given entry v (inr (inl (blank, kept, same))) = rw (same, blank, kept) refl
IsPassword-truthy given entry v (inr (inr (blank, dropped, inl there))) =
    rw (blank, dropped, get_or_null, there) refl
IsPassword-truthy given entry v (inr (inr (blank, dropped, inr (absent, same)))) =
    rw (blank, dropped, get_or_null, absent, same) refl

pub new_options-password :
    (household_id : Text) (entry : Entry) (i : OptionsInput) (d : Dict Json)
    → get_or_null
        (codes "password")
        (insert (codes "household_id") (str household_id) (update d (new_options entry i)))
      ≡ password_or i.password (current_password entry)
unfolding new_options final or_else text_eq
new_options-password household_id entry i d =
    get-settings (codes "household_id") (codes "password") (str household_id)
      (password_or i.password (current_password entry)) (new_options entry i) d refl refl

pub new_options-backup_client_for :
    (household_id : Text) (entry : Entry) (i : OptionsInput) (d : Dict Json)
    → backup_client_for
        (insert (codes "household_id") (str household_id) (update d (new_options entry i)))
      ≡ (truthy (strip (or_text i.host []))
          && truthy (strip (or_text i.fingerprint []))
          && truthy (or_text i.username [])
          && (truthy (or_text i.password [])
              || truthy_json (get_or_null (codes "password") entry.entry_data)
              || truthy_json (get_or_null (codes "password") entry.options)))
unfolding new_options final or_else truthy_json text_eq
new_options-backup_client_for household_id entry i d =
    let id = codes "household_id" in
    let given = new_options entry i in
    backup_client_for_lem (insert id (str household_id) (update d given)) _ _ _ _
      (get-settings id (codes "host") (str household_id) (str (strip (or_text i.host []))) given d
        refl refl)
      (get-settings id (codes "fingerprint") (str household_id)
        (str (strip (or_text i.fingerprint []))) given d refl refl)
      (get-settings id (codes "username") (str household_id) (str (or_text i.username [])) given d
        refl refl)
      (new_options-password household_id entry i d)
    ∙ ap
        (λ kept.
          truthy (strip (or_text i.host []))
          && truthy (strip (or_text i.fingerprint []))
          && truthy (or_text i.username [])
          && kept)
        (IsPassword-truthy (or_text i.password []) entry _
          (password_or-IsPassword i.password entry))
