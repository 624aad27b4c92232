-- ===== src/Control/Targets.antt =====
-- guest.py: which entry a service call acts on.
use homekey_household.Prelude.{
  Text, codes, truthy, lookup, text_eq_self, Bool, true, false, Bool-cases, Option-cases,
  if◌then◌else◌, some, [], ◌∷◌, ◌≡◌, ◌⊎◌, refl, sym, subst, ap, ◌∙◌, inl, inr,
}
use homekey_household.Models.Json.{Json, null, bool, int, float, str, arr, obj, Fields}
use homekey_household.Models.Errors.{Error, Result, ok, raise}
use homekey_household.Models.Values.{truthy_json}
use homekey_household.Models.Parts.{>>=-eq-ok, ok_injective}
use homekey_household.Control.Sending.{Controller, Attempt, Outcome}
use homekey_household.Control.Guests.{
  Runtimes, only_one, entry_named, runtime_for, node_id_for, on_node, stripped, requested_entry,
  revoke, revoke_guest_tag, shown_error,
}

-- The entry that a call names or, where it names none, the only one that is set up.
pub record IsTarget (requested : Json) (runtimes : Runtimes) (entry_id : Text) (c : Controller)
    : Type 0 where
  pub set_up : lookup entry_id runtimes ≡ some c
  pub chosen :
      ((truthy_json requested ≡ true) × (requested ≡ str entry_id))
      ⊎ ((truthy_json requested ≡ false) × (runtimes ≡ (entry_id, c) ∷ []))

entry_named-IsTarget :
    (requested : Json) (runtimes : Runtimes) (entry_id : Text) (c : Controller)
    → truthy_json requested ≡ true
    → entry_named requested runtimes ≡ ok (entry_id, c)
    → IsTarget requested runtimes entry_id c
unfolding entry_named
entry_named-IsTarget (str s) runtimes entry_id c named e = elim (Option-cases (lookup s runtimes)) [
  | inl absent ↦ absurd (let e' = rw absent at e in cc e')
  | inr (d, there) ↦
      let found : ok (s, d) ≡ ok (entry_id, c) = rw there at e in
      subst (λ (k, d). IsTarget (str s) runtimes k d) (ok_injective found)
        (record { set_up = there; chosen = inl (named, refl) })
]
entry_named-IsTarget (arr vs) runtimes entry_id c named e = absurd (cc)
entry_named-IsTarget (obj fs) runtimes entry_id c named e = absurd (cc)
entry_named-IsTarget null runtimes entry_id c named e = absurd (cc)
entry_named-IsTarget (bool b) runtimes entry_id c named e = absurd (cc)
entry_named-IsTarget (int n) runtimes entry_id c named e = absurd (cc)
entry_named-IsTarget (float x) runtimes entry_id c named e = absurd (cc)

only_one-IsTarget :
    (requested : Json) (runtimes : Runtimes) (entry_id : Text) (c : Controller)
    → truthy_json requested ≡ false
    → only_one runtimes ≡ ok (entry_id, c)
    → IsTarget requested runtimes entry_id c
unfolding only_one lookup
only_one-IsTarget requested [] entry_id c unnamed e = absurd (cc)
only_one-IsTarget requested ((k, d) ∷ []) entry_id c unnamed e =
    subst (λ (k', d'). IsTarget requested ((k, d) ∷ []) k' d') (ok_injective e)
      (record { set_up = rw (text_eq_self k) refl; chosen = inr (unnamed, refl) })
only_one-IsTarget requested (x ∷ y ∷ rest) entry_id c unnamed e = absurd (cc)

runtime_for-IsTarget :
    (requested : Json) (runtimes : Runtimes) (entry_id : Text) (c : Controller)
    → runtime_for requested runtimes ≡ ok (entry_id, c)
    → IsTarget requested runtimes entry_id c
unfolding runtime_for
runtime_for-IsTarget requested [] entry_id c e = absurd (cc)
runtime_for-IsTarget requested (x ∷ rest) entry_id c e = elim (Bool-cases (truthy_json requested)) [
  | inl named ↦ entry_named-IsTarget requested (x ∷ rest) entry_id c named (rw named at e)
  | inr unnamed ↦ only_one-IsTarget requested (x ∷ rest) entry_id c unnamed (rw unnamed at e)
]

on_node-eq-ok :
    (act : Controller → Result (Outcome Json)) (found : Result (Text × Controller))
    (entry_id : Text) (outcome : Outcome Json)
    → on_node act found ≡ ok (entry_id, outcome)
    → (c : Controller) × (found ≡ ok (entry_id, c)) × (act c ≡ ok outcome)
unfolding on_node
on_node-eq-ok act (raise err) entry_id outcome e = absurd (cc)
on_node-eq-ok act (ok (k, c)) entry_id outcome e =
    let (node_id, polled, e) = >>=-eq-ok (node_id_for c) _ e in
    let (out, done, e) = >>=-eq-ok (act c) _ e in
    let same : (k, out) ≡ (entry_id, outcome) = ok_injective e in
    (c, ap (λ (j, o). ok (j, c)) same, done ∙ ap (λ (j, o). ok o) same)

if-eq-ok {ℓ} :
    {A : Type ℓ} (b : Bool) (a o : A) (err : Error)
    → (if b then ok a else raise err) ≡ ok o
    → (b ≡ true) × (o ≡ a)
if-eq-ok true a o err e = (refl, sym (ok_injective e))
if-eq-ok false a o err e = absurd (cc)

-- A revocation that was attempted names a card, and acts on the entry that the call names or, where it
-- names none, on the only one that is set up: it revokes that card on that entry's node.
pub revoke-IsTarget :
    (t : Attempt) (call : Fields) (runtimes : Runtimes) (entry_id : Text) (outcome : Outcome Json)
    → revoke t call runtimes ≡ ok (entry_id, outcome)
    → (c : Controller) × IsTarget (requested_entry call) runtimes entry_id c
      × (truthy (stripped t.writer call (codes "tag_id")) ≡ true)
      × (outcome ≡ shown_error (revoke_guest_tag t (stripped t.writer call (codes "tag_id")) c))
unfolding revoke
revoke-IsTarget t call runtimes entry_id outcome e =
    let (c, found, done) =
      on_node-eq-ok _ (runtime_for (requested_entry call) runtimes) entry_id outcome e in
    let (card, same) = if-eq-ok _ _ outcome _ done in
    (c, runtime_for-IsTarget (requested_entry call) runtimes entry_id c found, card, same)
