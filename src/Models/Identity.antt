-- ===== src/Models/Identity.antt =====
-- models.py: the payloads that name the household and the node, and the ids they are checked against.
use homekey_household.Prelude.{Text, codes, truthy, true, ◌≡◌, sym, ap, subst, ◌∙◌}
use homekey_household.Const.Words.{key_household_id, key_node_id, key_lock_current, key_lock_target}
use homekey_household.Models.Json.{Json, str, obj, Fields, get, has}
use homekey_household.Models.Errors.{ok}
use homekey_household.Models.Validators.{
  as_optional_str, require_dict, require_str, optional_str, optional_int, optional_bool,
  require_match, validate_match, require_identity, validate_identity,
}
use homekey_household.Models.State
use homekey_household.Models.State.{NodeState}
use homekey_household.Models.Health
use homekey_household.Models.Health.{NodeHealth}
use homekey_household.Models.Parts.{
  >>=-eq-ok, require_dict-eq-ok, require_str-eq-ok, Reads, optional_int-Reads, require_match-eq-ok,
  validate_match-eq-ok, require_match-truthy, or_text-truthy, of_ok, bind_ensures,
}

-- An accepted `state` payload is an object that names the household and the node of its topic, and
-- the state that is built from it has those ids and a name.
pub state_identity :
    (payload : Json) (hid nid : Text) (s : NodeState)
    → State.from_dict payload hid nid ≡ ok s
    → (d : Fields) × (payload ≡ obj d)
      × (get d key_household_id ≡ str hid)
      × (get d key_node_id ≡ str nid)
      × (s.household_id ≡ hid)
      × (s.node_id ≡ nid)
      × (truthy s.node_name ≡ true)
unfolding State.from_dict require_identity
state_identity payload hid nid s h =
    let (d, is, h1) = >>=-eq-ok (require_dict payload _) _ h in
    let (u, matched, h2) = >>=-eq-ok (require_identity d hid nid _) _ h1 in
    let (v, household, node) = >>=-eq-ok (require_match d key_household_id hid _) _ matched in
    let at_node = require_match-eq-ok d key_node_id nid _ node in
    let (name, _, h3) = >>=-eq-ok (optional_str d _) _ h2 in
    let (role, _, h4) = >>=-eq-ok (optional_str d _) _ h3 in
    let (state, _, h5) = >>=-eq-ok (optional_str d _) _ h4 in
    let (generation, _, h6) = >>=-eq-ok (optional_int d _) _ h5 in
    let (firmware, _, h7) = >>=-eq-ok (optional_str d _) _ h6 in
    (
      d,
      require_dict-eq-ok payload _ d is,
      require_match-eq-ok d key_household_id hid _ household,
      at_node,
      sym (of_ok (λ x. x.household_id) h7),
      sym (of_ok (λ x. x.node_id) h7),
      subst (λ t. truthy t ≡ true) (of_ok (λ x. x.node_name) h7)
          (or_text-truthy name nid (require_match-truthy d key_node_id nid _ node)),
    )

identity_household :
    (d : Fields) (hid nid where' : Text) {u : Unit {0}}
    → validate_identity d hid nid where' ≡ ok u
    → has d key_household_id ≡ true
    → get d key_household_id ≡ str hid
unfolding validate_identity
identity_household d hid nid where' h =
    let (v, household, node) = >>=-eq-ok (validate_match d key_household_id hid where') _ h in
    validate_match-eq-ok d key_household_id hid where' household

identity_node :
    (d : Fields) (hid nid where' : Text) {u : Unit {0}}
    → validate_identity d hid nid where' ≡ ok u
    → has d key_node_id ≡ true
    → get d key_node_id ≡ str nid
unfolding validate_identity
identity_node d hid nid where' h =
    let (v, household, node) = >>=-eq-ok (validate_match d key_household_id hid where') _ h in
    validate_match-eq-ok d key_node_id nid where' node

-- A snapshot that says of its payload what the payload says.
pub record HealthOf (payload : Json) (hid nid : Text) (s : NodeHealth) : Type 0 where
  pub fields : Fields
  pub object : payload ≡ obj fields
  pub household : has fields key_household_id ≡ true → get fields key_household_id ≡ str hid
  pub node : has fields key_node_id ≡ true → get fields key_node_id ≡ str nid
  pub mqtt : get fields (codes "mqtt") ≡ str s.mqtt
  pub lock_current : Reads (get fields key_lock_current) s.lock_current
  pub lock_target : Reads (get fields key_lock_target) s.lock_target
  pub uptime : Reads (get fields (codes "uptime")) s.uptime

-- An accepted `health` payload is an object; an identity that it holds is that of its topic; its
-- `mqtt` is a text; and the lock states and the uptime of the snapshot are those of the payload, none
-- where the payload has none.
pub health_faithful :
    (payload : Json) (hid nid : Text) (s : NodeHealth)
    → Health.from_dict payload hid nid ≡ ok s
    → HealthOf payload hid nid s
unfolding Health.from_dict
health_faithful payload hid nid =
    let Q = HealthOf payload hid nid in
    bind_ensures Q (require_dict payload _) _ λ d is.
      bind_ensures Q (validate_identity d hid nid _) _ λ u matched.
        bind_ensures Q (Health.security_object _) _ λ security _.
          bind_ensures Q (optional_str d _) _ λ network _.
            bind_ensures Q (require_str d _) _ λ mqtt mqtt_read.
              bind_ensures Q (optional_str d _) _ λ nfc _.
                bind_ensures Q (optional_str d _) _ λ certificate _.
                  bind_ensures Q (optional_int d _) _ λ mqtt_error _.
                    bind_ensures Q (optional_int d _) _ λ current current_read.
                      bind_ensures Q (optional_int d _) _ λ target target_read.
                        bind_ensures Q (optional_str d _) _ λ backup _.
                          bind_ensures Q (optional_str d _) _ λ firmware _.
                            bind_ensures Q (optional_int d _) _ λ uptime uptime_read.
                              bind_ensures Q (optional_int d _) _ λ heap _.
                                bind_ensures Q (as_optional_str _ _) _ λ reason _.
                                  bind_ensures Q (optional_bool security _) _ λ all_ok _.
                                    bind_ensures Q (as_optional_str _ _) _ λ warnings _. λ s made.
                                      record {
                                        fields = d;
                                        object = require_dict-eq-ok payload _ d is;
                                        household = (identity_household d hid nid _ matched);
                                        node = (identity_node d hid nid _ matched);
                                        mqtt =
                                            (require_str-eq-ok d _ mqtt mqtt_read).0
                                            ∙ ap str (of_ok (λ x. x.mqtt) made);
                                        lock_current =
                                            subst (Reads _) (of_ok (λ x. x.lock_current) made)
                                              (optional_int-Reads d _ current current_read);
                                        lock_target =
                                            subst (Reads _) (of_ok (λ x. x.lock_target) made)
                                              (optional_int-Reads d _ target target_read);
                                        uptime =
                                            subst (Reads _) (of_ok (λ x. x.uptime) made)
                                              (optional_int-Reads d _ uptime uptime_read);
                                      }
