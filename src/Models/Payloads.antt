-- ===== src/Models/Payloads.antt =====
-- models.py: what an accepted lock event holds.
use homekey_household.Prelude.{
  Text, codes, member, true, Option, none, some, ℤ, ◌≡◌, ap, subst, ◌∙◌, inl, inr, arith,
}
use homekey_household.Const.Words.{key_lock_source, lock_sources}
use homekey_household.Models.Json.{Json, int, str, obj, Fields, get}
use homekey_household.Models.Errors.{ok, guard}
use homekey_household.Models.Validators.{
  Clock, require_dict, optional_str, optional_int, normalise_timestamp, validate_identity,
}
use homekey_household.Models.Records.{LockChange, change_from_dict, required_int, known_source}
use homekey_household.Models.Parts.{
  >>=-eq-ok, guard-eq-ok, require_dict-eq-ok, Reads, optional_int-Reads, optional_str-eq-ok, of_ok,
}

required_int-eq-ok :
    (o : Option ℤ) (where' : Text) (n : ℤ) → required_int o where' ≡ ok n → o ≡ some n
unfolding required_int
required_int-eq-ok none where' n h = absurd (cc)
required_int-eq-ok (some m) where' n h = ground arith

known_source-eq-ok :
    (o : Option Text) (s : Text)
    → known_source o ≡ ok s
    → (o ≡ some s) × (member s lock_sources ≡ true)
unfolding known_source
known_source-eq-ok none s h = absurd (cc)
known_source-eq-ok (some t) s h =
    let (u, tested, same) = >>=-eq-ok (guard (member t lock_sources) _) _ h in
    let is : t ≡ s = ground arith in (ap some is, rw is at (guard-eq-ok _ _ tested))

Reads-some : (v : Json) (n : ℤ) → Reads v (some n) → v ≡ int n
Reads-some v n (inl (_, e)) = absurd (cc)
Reads-some v n (inr (m, is, e)) = ground arith

-- An accepted `lock/last` payload holds the state that it leads to as an integer, and a source of the
-- contract as a text; the event has that state and that source.
pub change_faithful :
    (clock : Clock) (payload : Json) (hid nid : Text) (c : LockChange)
    → change_from_dict clock payload hid nid ≡ ok c
    → (d : Fields) × (payload ≡ obj d)
      × (get d (codes "current") ≡ int c.current)
      × (get d key_lock_source ≡ str c.source)
      × (member c.source lock_sources ≡ true)
unfolding change_from_dict
change_faithful clock payload hid nid c h =
    let (d, is, h1) = >>=-eq-ok (require_dict payload _) _ h in
    let (u, matched, h2) = >>=-eq-ok (validate_identity d hid nid _) _ h1 in
    let (reported, read, h3) = >>=-eq-ok (optional_int d _) _ h2 in
    let (current, required, h4) = >>=-eq-ok (required_int reported _) _ h3 in
    let (named, source_read, h5) = >>=-eq-ok (optional_str d _) _ h4 in
    let (source, known, h6) = >>=-eq-ok (known_source named) _ h5 in
    let (target, _, h7) = >>=-eq-ok (optional_int d _) _ h6 in
    let (stamp, _, h8) = >>=-eq-ok (normalise_timestamp clock _ _) _ h7 in
    let some_current = required_int-eq-ok reported _ current required in
    let (some_source, member_source) = known_source-eq-ok named source known in
    (
      d,
      require_dict-eq-ok payload _ d is,
      Reads-some _ current (subst (Reads _) some_current (optional_int-Reads d _ reported read))
          ∙ ap int (of_ok (λ x. x.current) h8),
      optional_str-eq-ok d _ source (source_read ∙ ap ok some_source)
          ∙ ap str (of_ok (λ x. x.source) h8),
      subst (λ t. member t lock_sources ≡ true) (of_ok (λ x. x.source) h8) member_source,
    )
