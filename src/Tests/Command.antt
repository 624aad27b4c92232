-- ===== src/Tests/Command.antt =====
-- Runs of the nonces and of the key material, and the theorems about them at concrete inputs.
use homekey_household.Prelude.{
  ℕ, Text, codes, member, false, [], ◌∷◌, pos, negsuc, ◌≡◌, refl, arith,
}
use homekey_household.Command.Encoding.{Bytes, bytes, text, to_hex, decimal, canonical_input}
use homekey_household.Command.Nonces.{NonceTracker, new_tracker, remember}
use homekey_household.Command.Build.{derive_command_key}
use homekey_household.Command.Window.{Tracks, recent, new_tracker-Tracks, fresh_nonce_unused}
use homekey_household.Command.Material.{derive_command_key_hex}
use homekey_household.Tests.Data.{program, toy}

canonical :
    canonical_input (pos 1700000000) (codes "0a") (codes "r1") (codes "lock")
    ≡ codes "17000000000ar1lock"
unfolding program
canonical = refl

negative : decimal (negsuc 41) ≡ codes "-42"
unfolding decimal
negative = refl

abbrev draw : ℕ → ℕ → Text
draw i n = codes "00ff"

abbrev small : NonceTracker
small = new_tracker 2

fresh_nonce_unused_example :
    (member (codes "00ff") (recent small.window []) ≡ false)
    × Tracks (remember small (codes "00ff")) (codes "00ff" ∷ [])
    × ((remember small (codes "00ff")).window ≡ small.window)
unfolding program
fresh_nonce_unused_example =
    fresh_nonce_unused 16 draw small (remember small (codes "00ff")) [] (codes "00ff")
      (new_tracker-Tracks 2) refl

abbrev secret : Bytes
secret = 1 ∷ 35 ∷ 69 ∷ 103 ∷ 137 ∷ 171 ∷ 205 ∷ 239 ∷ []

secret_hex : to_hex secret ≡ codes "0123456789abcdef"
unfolding to_hex
secret_hex = refl

derive_command_key_hex_example :
    derive_command_key toy (text (to_hex secret)) (text (to_hex secret))
    ≡ derive_command_key toy (bytes secret) (bytes secret)
derive_command_key_hex_example =
    derive_command_key_hex toy secret secret (omega arith) (omega arith) (omega arith) (omega arith)
