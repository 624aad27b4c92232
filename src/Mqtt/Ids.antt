-- ===== src/Mqtt/Ids.antt =====
-- The two checks of an id, in models.py and in mqtt.py, agree.
use homekey_household.Prelude.{Text, truthy, leb, length, all, true, ◌&&◌, ◌≡◌, ◌↔◌, and_true}
use homekey_household.Const.Words.{id_safe_chars}
use homekey_household.Models.Errors.{ok, guard}
use homekey_household.Models.Validators.{validate_id, char_in}
use homekey_household.Models.Parts.{>>=-eq-ok, guard-eq-ok}
use homekey_household.Mqtt.Topic.{is_valid_id}

valid_of_validated :
    (value field_name : Text)
    → validate_id value field_name 64 ≡ ok value
    → is_valid_id value ≡ true
unfolding validate_id is_valid_id
valid_of_validated value field_name h =
    let (_, full, h1) = >>=-eq-ok (guard (truthy value) _) _ h in
    let (_, short, h2) = >>=-eq-ok (guard (leb (length value) 64) _) _ h1 in
    let (_, safe, h3) = >>=-eq-ok (guard (all (char_in id_safe_chars) value) _) _ h2 in
    rw (guard-eq-ok _ _ full, guard-eq-ok _ _ short, guard-eq-ok _ _ safe)

validated_of_valid :
    (value field_name : Text)
    → is_valid_id value ≡ true
    → validate_id value field_name 64 ≡ ok value
unfolding validate_id is_valid_id
validated_of_valid value field_name h =
    let (front, safe) =
      and_true (truthy value && leb (length value) 64) (all (char_in id_safe_chars) value) h in
    let (full, short) = and_true (truthy value) (leb (length value) 64) front in
    rw (full, short, safe)

-- An id passes the check of a configured id, at its usual limit of 64, exactly if a topic with it is
-- read: what can be configured can be heard.
pub validate_id-is_valid_id :
    (value field_name : Text)
    → (validate_id value field_name 64 ≡ ok value) ↔ (is_valid_id value ≡ true)
validate_id-is_valid_id value field_name =
    (valid_of_validated value field_name, validated_of_valid value field_name)
