-- ===== src/Coordinator/Actors.antt =====
-- coordinator.py, `_actor_for`: who is named as the cause of a lock change.
use homekey_household.Prelude.{
  Text, text_eq, text_eq_iff, text_eq_self, truthy, true, ◌&&◌, Option, none, some, ◌≡◌, refl, ap,
  ◌⊎◌, inl, inr, arith, Bool-cases, Option-cases,
}
use homekey_household.Const.Words.{source_homekey}
use homekey_household.Models.Records.{LastAuth}
use homekey_household.Models.Node.{Node, optional_text_eq}
use homekey_household.Coordinator.Attribution.{issuer_of, named_issuer, actor_for, label_of}

optional_text_eq_sound :
    (s : Text) (o : Option Text) → optional_text_eq (some s) o ≡ true → o ≡ some s
unfolding optional_text_eq
optional_text_eq_sound s none h = cc
optional_text_eq_sound s (some t) h = ap some (ground (arith, text_eq_iff s t))

-- The authorisation that lets a person be named.
pub record Authorised (n : Node) (source : Text) (stamp : Option Text) (issuer : Text)
    : Type 0 where
  pub tap : source ≡ source_homekey
  pub auth : LastAuth
  pub last : n.last_auth ≡ some auth
  pub name : auth.issuer ≡ some issuer
  pub not_empty : truthy issuer ≡ true
  pub time : Text
  pub stamped : auth.timestamp ≡ some time
  pub matches : stamp ≡ some time

named_issuer_sound :
    (n : Node) (source : Text) (stamp : Option Text) (auth : LastAuth) (issuer : Text)
    → source ≡ source_homekey
    → n.last_auth ≡ some auth
    → named_issuer auth stamp ≡ some issuer
    → Authorised n source stamp issuer
unfolding named_issuer
named_issuer_sound n source stamp auth issuer tap last h = elim (Option-cases auth.issuer) [
  | inl nobody ↦ absurd (ground arith)
  | inr (name, has) ↦ elim (Option-cases auth.timestamp) [
    | inl never ↦ absurd (ground arith)
    | inr (t, at) ↦ elim (Bool-cases (truthy name && optional_text_eq (some t) stamp)) [
      | inr differs ↦ absurd (ground arith)
      | inl matches ↦ record {
        tap = tap;
        auth = auth;
        last = last;
        name = ground arith;
        not_empty = ground arith;
        time = t;
        stamped = at;
        matches = optional_text_eq_sound t stamp (ground arith);
      }
    ]
  ]
]

issuer_of_sound :
    (n : Node) (source : Text) (stamp : Option Text) (issuer : Text)
    → issuer_of n source stamp ≡ some issuer
    → Authorised n source stamp issuer
unfolding issuer_of
issuer_of_sound n source stamp issuer h = elim (Bool-cases (text_eq source source_homekey)) [
  | inr other ↦ absurd (cc (rw other at h))
  | inl tap ↦ elim (Option-cases n.last_auth) [
    | inl nobody ↦ absurd (ground arith)
    | inr (auth, last) ↦
        named_issuer_sound n source stamp auth issuer ((text_eq_iff source source_homekey).0 tap)
          last (ground arith)
  ]
]

Authorised-issuer :
    (n : Node) (source : Text) (stamp : Option Text) (issuer : Text)
    → Authorised n source stamp issuer
    → issuer_of n source stamp ≡ some issuer
unfolding issuer_of named_issuer optional_text_eq
Authorised-issuer n source stamp issuer a =
    rw
      (
        a.tap,
        a.last,
        a.name,
        a.stamped,
        a.matches,
        a.not_empty,
        text_eq_self a.time,
        text_eq_self source_homekey,
      )
      refl

-- The cause that is named is the label of the source, and no authorisation lets a person be named;
-- or else the last authorisation was a HomeKey tap with the very stamp of the change, and the cause
-- is its issuer.
pub actor_for_cases :
    (n : Node) (source : Text) (stamp : Option Text)
    → (¬ ((issuer : Text) × Authorised n source stamp issuer)
        × (actor_for n source stamp ≡ label_of source))
      ⊎ Authorised n source stamp (actor_for n source stamp)
unfolding actor_for
actor_for_cases n source stamp = elim (Option-cases (issuer_of n source stamp)) [
  | inl nobody ↦ inl (
    λ (issuer, a). absurd (cc (Authorised-issuer n source stamp issuer a, nobody)),
    rw (nobody, actor_for),
  )
  | inr (issuer, named) ↦ inr (rw (named, actor_for) (issuer_of_sound n source stamp issuer named))
]
