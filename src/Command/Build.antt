-- ===== src/Command/Build.antt =====
-- command.py: the key derivation, the MAC and `build_command`.
use homekey_household.Prelude.{
  ℕ, Text, codes, member, leb, length, truthy, ◌&&◌, Option, none, some, List, [], ◌∷◌, ◌++◌, ℤ,
  if◌then◌else◌,
}
use homekey_household.Const.Topics.{action_lock, action_unlock}
use homekey_household.Models.Json.{Json, int, str, obj, end, field}
use homekey_household.Models.Errors.{
  Result, ok, raise, ◌>>=◌, ◌>>◌, guard, unsupported_action, empty_key, bad_nonce, bad_request_id,
  empty_secret, unexpected,
}
use homekey_household.Command.Encoding.{Bytes, Material, key_material, encode_utf8, canonical_input}
use homekey_household.Command.Nonces.{
  NonceTracker, nonce_bytes, new_nonce, fresh_nonce, is_plausible,
}

-- The libraries and the sources of time and chance that a command takes.
pub record Crypto : Type 0 where
  -- `hmac.new(key, message, sha256).hexdigest()`
  pub hmac_hex : Bytes → Bytes → Text
  -- `hashlib.blake2b(material, key=label, digest_size=n).digest()`
  pub blake2b : Bytes → Bytes → ℕ → Bytes

-- The draws of one call: the random texts of each turn, the request id and the time.
pub record Draws : Type 0 where
  pub token_hex : ℕ → ℕ → Text
  pub request_id : Text
  pub epoch_seconds : ℤ

pub record AuthenticatedCommand : Type 0 where
  pub ts : ℤ
  pub nonce : Text
  pub req_id : Text
  pub mac : Text

-- `to_dict`, in the contract's order
unfoldable pub to_dict : AuthenticatedCommand → Json
to_dict c = obj (
    field (codes "ts") (int c.ts) (
      field (codes "nonce") (str c.nonce)
        (field (codes "req_id") (str c.req_id) (field (codes "mac") (str c.mac) end))))

abbrev pub command_key_label : Text
command_key_label = codes "HK-HOUSEHOLD-CMD-v1"

abbrev pub actions : List Text
actions = action_lock ∷ action_unlock ∷ []

-- A fresh nonce beside the tracker that remembers it; the old tracker where there is none.
tracked : NonceTracker → Result (Text × NonceTracker) → Result Text × Option NonceTracker
tracked t (raise e) = (raise e, some t)
tracked t (ok (nonce, t')) = (ok nonce, some t')

module _ (crypto : Crypto) where
  -- The label is shorter than BLAKE2b's 64 bytes; the check stays.
  unfoldable pub derive_command_key : Material → Material → Result Bytes
  derive_command_key recovery_secret salt = do
    secret ← key_material recovery_secret
    guard (truthy secret) empty_secret
    label ← encode_utf8 command_key_label
    guard (leb (length label) 64) unexpected
    salt_bytes ← key_material salt
    ok (crypto.blake2b (secret ++ salt_bytes) label 32)

  unfoldable pub make_command_mac : Bytes → ℤ → Text → Text → Text → Result Text
  make_command_mac key ts nonce req_id action = do
    guard (member action actions) unsupported_action
    message ← encode_utf8 (canonical_input ts nonce req_id action)
    ok (crypto.hmac_hex key message)

  -- The nonce: given, fresh from the tracker, or drawn. The tracker comes back beside an error too.
  unfoldable pub choose_nonce :
      Draws → Option Text → Option NonceTracker → Result Text × Option NonceTracker
  unfolding tracked
  choose_nonce draws (some nonce) tracker = (ok nonce, tracker)
  choose_nonce draws none none = (new_nonce nonce_bytes (draws.token_hex 0), none)
  choose_nonce draws none (some t) = tracked t (fresh_nonce nonce_bytes draws.token_hex t)

  abbrev or_default {ℓ} : {A : Type ℓ} → Option A → A → A
  or_default none d = d
  or_default (some a) d = a

  -- The checks after the nonce, and the signature.
  unfoldable pub sign : Bytes → Text → ℤ → Text → Text → Result AuthenticatedCommand
  sign key action ts nonce req_id = do
    guard (is_plausible nonce) bad_nonce
    guard (truthy req_id && leb (length req_id) 128) bad_request_id
    mac ← make_command_mac key ts nonce req_id action
    ok (record { ts = ts; nonce = nonce; req_id = req_id; mac = mac })

  -- The command, and the tracker after it.
  unfoldable pub build_command :
      Draws
      → Bytes
      → Text
      → Option ℤ
      → Option Text
      → Option Text
      → Option NonceTracker
      → Result AuthenticatedCommand × Option NonceTracker
  unfolding choose_nonce
  build_command draws key action ts nonce req_id tracker =
      if member action actions
      then (if truthy key
          then (let (chosen, tracker') = choose_nonce draws nonce tracker in
              (
                (chosen >>= λ n.
                    sign key action (or_default ts draws.epoch_seconds) n
                      (or_default req_id draws.request_id)),
                tracker',
              ))
          else (raise empty_key, tracker))
      else (raise unsupported_action, tracker)
