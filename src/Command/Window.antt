-- ===== src/Command/Window.antt =====
-- The nonces of the tracker and the node's replay window: no nonce comes twice inside it.
use homekey_household.Prelude.{
  ℕ, zero, suc, ◌+◌, ◌-◌, ◌*◌, ◌≤◌, ◌<◌, Text, member, ltb, length, drop, take, length-append,
  length-drop, take-append-drop, false, List, [], ◌∷◌, ◌++◌, ◌≡◌, refl, sym, ap, ◌∙◌, ◌⊎◌, inl, inr,
  arith, Bool-cases, ◌==◌, ==_iff, lt→ltb, append_assoc,
}
use homekey_household.Models.Errors.{Result, ok}
use homekey_household.Command.Nonces.{
  NonceTracker, new_tracker, remember, new_nonce, attempts, fresh_nonce,
}

-- The last `w` of a history, newest last.
abbrev pub recent : ℕ → List Text → List Text
recent w history = drop (length history - w) history

-- The tracker holds the end of the history: all of it, or at least a window.
pub record Tracks (t : NonceTracker) (history : List Text) : Type 0 where
  pub forgotten : List Text
  pub is : history ≡ forgotten ++ t.seen
  pub enough : (forgotten ≡ []) ⊎ (t.window ≤ length t.seen)
  pub positive : 0 < t.window
  pub bounded : length t.seen ≤ t.window * 2

pub new_tracker-Tracks : (w : ℕ) → Tracks (new_tracker w) []
unfolding new_tracker
new_tracker-Tracks w = record {
  forgotten = [];
  is = refl;
  enough = inl refl;
  positive = omega arith;
  bounded = omega arith;
}

remember-Tracks :
    (t : NonceTracker) (history : List Text) (nonce : Text)
    → Tracks t history
    → Tracks (remember t nonce) (history ++ (nonce ∷ []))
unfolding remember
remember-Tracks t history nonce k =
    let seen = t.seen ++ (nonce ∷ []) in
    let grown = length-append t.seen (nonce ∷ []) in
    let whole : history ++ (nonce ∷ []) ≡ k.forgotten ++ seen =
      rw k.is (append_assoc k.forgotten t.seen (nonce ∷ [])) in
    elim (Bool-cases (ltb (t.window * 2) (length seen))) [
      | inr fits ↦ rw fits (record {
        forgotten = k.forgotten;
        is = whole;
        enough = elim k.enough [ inl all ↦ inl all | inr w ↦ inr (omega arith) ];
        positive = k.positive;
        bounded = ground arith;
      })
      | inl over ↦ rw over (record {
        forgotten = k.forgotten ++ take t.window seen;
        is =
            whole
            ∙ (ap (λ s. k.forgotten ++ s) (sym (take-append-drop t.window seen))
                ∙ sym (append_assoc k.forgotten (take t.window seen) (drop t.window seen)));
        enough = inr (ground (arith, length-drop t.window seen, k.positive));
        positive = k.positive;
        bounded = ground (arith, length-drop t.window seen, k.positive, k.bounded);
      })
    ]

remember-window : (t : NonceTracker) (nonce : Text) → (remember t nonce).window ≡ t.window
unfolding remember
remember-window t nonce = refl

member-drop :
    (s : Text) (n : ℕ) (xs : List Text) → member s xs ≡ false → member s (drop n xs) ≡ false
unfolding member
member-drop s zero xs h = h
member-drop s (suc n) [] h = refl
member-drop s (suc n) (x ∷ xs) h = member-drop s n xs (ground arith)

drop-append : (xs ys : List Text) (m n : ℕ) → m ≡ length xs + n → drop m (xs ++ ys) ≡ drop n ys
drop-append [] ys m n e = ap (λ k. drop k ys) (omega arith)
drop-append (x ∷ xs) ys zero n e = absurd (omega arith)
drop-append (x ∷ xs) ys (suc m) n e = drop-append xs ys m n (omega arith)

-- What is not among the tracked nonces is not among the last window of the history.
recent_unseen :
    (t : NonceTracker) (history : List Text) (s : Text)
    → Tracks t history
    → member s t.seen ≡ false
    → member s (recent t.window history) ≡ false
recent_unseen t history s k unseen =
    let sizes = length-append k.forgotten t.seen in
    rw k.is (elim k.enough [
      | inl all ↦ rw all (member-drop s (length t.seen - t.window) t.seen unseen)
      | inr w ↦
          rw
            (drop-append k.forgotten t.seen (length (k.forgotten ++ t.seen) - t.window)
              (length t.seen - t.window) (omega arith))
            (member-drop s (length t.seen - t.window) t.seen unseen)
    ])

given_is :
    (t : NonceTracker) (drawn nonce : Text) (t' : NonceTracker)
    → member drawn t.seen ≡ false
    → ◌≡◌ {A = Result (Text × NonceTracker)} (ok (drawn, remember t drawn)) (ok (nonce, t'))
    → (member nonce t.seen ≡ false) × (t' ≡ remember t nonce)
given_is t drawn nonce t' unused h = (ground arith, ground arith)

attempts_ok :
    (n num_bytes : ℕ) (draw : ℕ → ℕ → Text) (t t' : NonceTracker) (nonce : Text)
    → attempts n num_bytes draw t ≡ ok (nonce, t')
    → (member nonce t.seen ≡ false) × (t' ≡ remember t nonce)
unfolding attempts new_nonce
attempts_ok zero num_bytes draw t t' nonce h = absurd (cc)
attempts_ok (suc n) num_bytes draw t t' nonce h = elim (Bool-cases (ltb 0 num_bytes)) [
  | inr none' ↦ absurd (cc (rw none' at h))
  | inl some' ↦ elim (Bool-cases (member (draw n num_bytes) t.seen)) [
    | inl used ↦ attempts_ok n num_bytes draw t t' nonce (rw (some', used) at h)
    | inr unused ↦ given_is t (draw n num_bytes) nonce t' unused (rw (some', unused) at h)
  ]
]

-- A nonce that the tracker gives is not among the last window of those that it gave or was told of,
-- where it holds the end of their history; and it goes on to hold the end of the history with the
-- nonce. So two uses of one nonce are more than a window apart.
pub fresh_nonce_unused :
    (num_bytes : ℕ) (draw : ℕ → ℕ → Text) (t t' : NonceTracker) (history : List Text) (nonce : Text)
    → Tracks t history
    → fresh_nonce num_bytes draw t ≡ ok (nonce, t')
    → (member nonce (recent t.window history) ≡ false)
      × Tracks t' (history ++ (nonce ∷ []))
      × (t'.window ≡ t.window)
unfolding fresh_nonce
fresh_nonce_unused num_bytes draw t t' history nonce k h =
    let (unseen, is) = attempts_ok 8 num_bytes draw t t' nonce h in
    (
      recent_unseen t history nonce k unseen,
      rw is (remember-Tracks t history nonce k),
      rw is (remember-window t nonce),
    )

attempts_total :
    (n i num_bytes : ℕ) (draw : ℕ → ℕ → Text) (t : NonceTracker)
    → 0 < num_bytes
    → i < n
    → member (draw i num_bytes) t.seen ≡ false
    → (nonce : Text) × (t' : NonceTracker) × (attempts n num_bytes draw t ≡ ok (nonce, t'))
unfolding attempts new_nonce
attempts_total zero i num_bytes draw t pos lt unseen = absurd (omega arith)
attempts_total (suc n) i num_bytes draw t pos lt unseen =
    elim (Bool-cases (member (draw n num_bytes) t.seen)) [
      | inr unused ↦
          (draw n num_bytes, remember t (draw n num_bytes), rw (lt→ltb 0 num_bytes pos, unused))
      | inl used ↦ elim (Bool-cases (i == n)) [
        | inl last ↦ absurd (ground (arith, ==_iff i n))
        | inr earlier ↦
            let (nonce, t', e) =
              attempts_total n i num_bytes draw t pos (ground (arith, ==_iff i n)) unseen in
            (nonce, t', rw (lt→ltb 0 num_bytes pos, used, e))
      ]
    ]

-- For a nonce of one byte or more: if any of the eight draws is a text that the tracker does not
-- hold, a nonce is given.
pub fresh_nonce_total :
    (i num_bytes : ℕ) (draw : ℕ → ℕ → Text) (t : NonceTracker)
    → 0 < num_bytes
    → i < 8
    → member (draw i num_bytes) t.seen ≡ false
    → (nonce : Text) × (t' : NonceTracker) × (fresh_nonce num_bytes draw t ≡ ok (nonce, t'))
unfolding fresh_nonce
fresh_nonce_total i num_bytes draw t = attempts_total 8 i num_bytes draw t
