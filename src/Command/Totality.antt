-- ===== src/Command/Totality.antt =====
-- command.py: a command can be built from the draws that the libraries document.
use homekey_household.Prelude.{
  ℕ, zero, suc, ◌+◌, ◌/◌, ◌%◌, ◌<◌, Text, text_eq, text_eq_iff, member, truthy, length, all, ltb,
  leb, true, false, Option, none, some, [], ◌∷◌, ◌++◌, All, ℤ, pos, negsuc, ◌≡◌, refl, subst, arith,
  Bool-cases, inl, inr,
}
use homekey_household.Const.Topics.{action_lock, action_unlock}
use homekey_household.Models.Errors.{ok}
use homekey_household.Command.Encoding.{
  Bytes, encode_code, encode_utf8, is_hex, digits_fuel, decimal, canonical_input,
}
use homekey_household.Command.Nonces.{
  NonceTracker, new_nonce, attempts, fresh_nonce, is_plausible, nonce_bytes, remember,
}
use homekey_household.Command.Window.{fresh_nonce_total}
use homekey_household.Command.Build.{
  Crypto, Draws, AuthenticatedCommand, actions, make_command_mac, sign, choose_nonce, build_command,
}

-- A text of ASCII code points.
abbrev pub IsAscii : Text → Type 0
IsAscii s = All (λ c. c < 128) s

encode_utf8-IsAscii : (s : Text) → IsAscii s → encode_utf8 s ≡ ok s
unfolding encode_utf8 encode_code
encode_utf8-IsAscii [] a = refl
encode_utf8-IsAscii (c ∷ s) (small, a) = ground (arith, encode_utf8-IsAscii s a)

append-IsAscii : (s t : Text) → IsAscii s → IsAscii t → IsAscii (s ++ t)
append-IsAscii [] t a b = b
append-IsAscii (c ∷ s) t (small, a) b = (small, append-IsAscii s t a b)

digits_fuel-IsAscii : (f n : ℕ) (acc : Text) → IsAscii acc → IsAscii (digits_fuel f n acc)
unfolding digits_fuel
digits_fuel-IsAscii zero n acc a = a
digits_fuel-IsAscii (suc f) n acc a = elim (Bool-cases (ltb n 10)) [
  | inl last ↦ rw last (omega arith, a)
  | inr more ↦ rw more (digits_fuel-IsAscii f (n / 10) ((n % 10 + b'0') ∷ acc) (omega arith, a))
]

decimal-IsAscii : (n : ℤ) → IsAscii (decimal n)
unfolding decimal
decimal-IsAscii (pos n) = digits_fuel-IsAscii (n + 1) n [] tt
decimal-IsAscii (negsuc n) = (omega arith, digits_fuel-IsAscii (n + 2) (n + 1) [] tt)

hex-IsAscii : (s : Text) → all is_hex s ≡ true → IsAscii s
unfolding is_hex
hex-IsAscii [] h = tt
hex-IsAscii (c ∷ s) h = (ground arith, hex-IsAscii s (ground arith))

action-IsAscii : (action : Text) → member action actions ≡ true → IsAscii action
unfolding member
action-IsAscii action h = elim (Bool-cases (text_eq action_lock action)) [
  | inl is ↦
      subst IsAscii ((text_eq_iff action_lock action).0 is)
        (omega arith, (omega arith, (omega arith, (omega arith, tt))))
  | inr other ↦
      subst IsAscii ((text_eq_iff action_unlock action).0 (ground arith))
        (omega arith, (omega arith, (omega arith, (omega arith, (omega arith, (omega arith, tt))))))
]

canonical_input-IsAscii :
    (ts : ℤ) (nonce req_id action : Text)
    → all is_hex nonce ≡ true
    → IsAscii req_id
    → member action actions ≡ true
    → IsAscii (canonical_input ts nonce req_id action)
unfolding canonical_input
canonical_input-IsAscii ts nonce req_id action hex id known =
    append-IsAscii (decimal ts) _ (decimal-IsAscii ts) (
      append-IsAscii nonce _ (hex-IsAscii nonce hex)
        (append-IsAscii req_id action id (action-IsAscii action known)))

-- A request id of ASCII that is not empty and not too long.
pub record IsRequestId (req_id : Text) : Type 0 where
  pub some_text : truthy req_id ≡ true
  pub short : leb (length req_id) 128 ≡ true
  pub ascii : IsAscii req_id

sign_total :
    (crypto : Crypto) (key : Bytes) (action : Text) (ts : ℤ) (nonce req_id : Text)
    → is_plausible nonce ≡ true
    → IsRequestId req_id
    → member action actions ≡ true
    → (c : AuthenticatedCommand) × (sign crypto key action ts nonce req_id ≡ ok c)
unfolding sign make_command_mac
sign_total crypto key action ts nonce req_id plausible id known =
    let hex : all is_hex nonce ≡ true = unfold is_plausible in ground (arith, plausible) in
    let encoded =
      encode_utf8-IsAscii (canonical_input ts nonce req_id action)
        (canonical_input-IsAscii ts nonce req_id action hex id.ascii known) in
    (
      record {
        ts = ts;
        nonce = nonce;
        req_id = req_id;
        mac = crypto.hmac_hex key (canonical_input ts nonce req_id action);
      },
      rw (plausible, id.some_text, id.short, known, encoded) refl,
    )

attempts-plausible :
    (n num_bytes : ℕ) (draw : ℕ → ℕ → Text) (t t' : NonceTracker) (nonce : Text)
    → ((j : ℕ) → is_plausible (draw j num_bytes) ≡ true)
    → attempts n num_bytes draw t ≡ ok (nonce, t')
    → is_plausible nonce ≡ true
unfolding attempts new_nonce
attempts-plausible zero num_bytes draw t t' nonce all_hex h = absurd (cc)
attempts-plausible (suc n) num_bytes draw t t' nonce all_hex h =
    elim (Bool-cases (ltb 0 num_bytes)) [
      | inr empty ↦ absurd (cc (rw empty at h))
      | inl positive ↦ elim (Bool-cases (member (draw n num_bytes) t.seen)) [
        | inl used ↦
            attempts-plausible n num_bytes draw t t' nonce all_hex (rw (positive, used) at h)
        | inr unused ↦
            let made : ok (draw n num_bytes, remember t (draw n num_bytes)) ≡ ok (nonce, t') =
              rw (positive, unused) at h in
            let is : draw n num_bytes ≡ nonce = cc in rw is at (all_hex n)
      ]
    ]

-- The draws give a nonce that the checks let through.
fresh_nonce-plausible :
    (draws : Draws) (t : NonceTracker) (i : ℕ)
    → ((j : ℕ) → is_plausible (draws.token_hex j nonce_bytes) ≡ true)
    → i < 8
    → member (draws.token_hex i nonce_bytes) t.seen ≡ false
    → (nonce : Text) × (t' : NonceTracker) × (fresh_nonce nonce_bytes draws.token_hex t
        ≡ ok (nonce, t'))
      × (is_plausible nonce ≡ true)
fresh_nonce-plausible draws t i hex lt unseen =
    let (nonce, t', drawn) =
      fresh_nonce_total i nonce_bytes draws.token_hex t (omega arith) lt unseen in
    let plausible =
      attempts-plausible 8 nonce_bytes draws.token_hex t t' nonce hex
        (unfold fresh_nonce in drawn) in
    (nonce, t', drawn, plausible)

-- A command is built, over a tracker that does not hold one of the draws.
pub build_command_total :
    (crypto : Crypto) (draws : Draws) (key : Bytes) (action : Text) (ts : Option ℤ)
    (t : NonceTracker) (i : ℕ)
    → truthy key ≡ true
    → member action actions ≡ true
    → ((j : ℕ) → is_plausible (draws.token_hex j nonce_bytes) ≡ true)
    → IsRequestId draws.request_id
    → i < 8
    → member (draws.token_hex i nonce_bytes) t.seen ≡ false
    → (c : AuthenticatedCommand) × ((build_command crypto draws key action ts none none (some t)).0
        ≡ ok c)
unfolding build_command choose_nonce
build_command_total crypto draws key action none t i full known hex id lt unseen =
    let (nonce, t', drawn, plausible) = fresh_nonce-plausible draws t i hex lt unseen in
    let (c, signed) =
      sign_total crypto key action draws.epoch_seconds nonce draws.request_id plausible id known in
    (c, rw (known, full, drawn, signed) refl)
build_command_total crypto draws key action (some ts) t i full known hex id lt unseen =
    let (nonce, t', drawn, plausible) = fresh_nonce-plausible draws t i hex lt unseen in
    let (c, signed) = sign_total crypto key action ts nonce draws.request_id plausible id known in
    (c, rw (known, full, drawn, signed) refl)
