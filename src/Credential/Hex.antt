-- ===== src/Credential/Hex.antt =====
-- credential.py: the hex form of a key is read back.
use homekey_household.Prelude.{ℕ, ◌/◌, ◌%◌, All, true, false, some, [], ◌∷◌, ◌≡◌, refl, arith}
use homekey_household.Command.Encoding.{Bytes, is_hex, hex_digit, to_hex}
use homekey_household.Command.Material.{IsByte, hex_value-digit, hex_digit-hex}
use homekey_household.Credential.Keys.{parse_hex, is_ascii_space}

hex-not-space : (c : ℕ) → is_hex c ≡ true → is_ascii_space c ≡ false
unfolding is_hex is_ascii_space
hex-not-space c h = ground arith

pub parse_hex-to_hex : (bs : Bytes) → All IsByte bs → parse_hex (to_hex bs) ≡ some bs
unfolding parse_hex to_hex
parse_hex-to_hex [] h = refl
parse_hex-to_hex (b ∷ bs) (small, h) = ground (
  arith,
  hex_digit-hex (b / 16),
  hex_digit-hex (b % 16),
  hex-not-space (hex_digit (b / 16)),
  hex_value-digit (b / 16),
  hex_value-digit (b % 16),
  parse_hex-to_hex bs,
)
