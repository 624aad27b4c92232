-- ===== src/Command/Material.antt =====
-- The hex form of a secret or a salt stands for the bytes that the node holds.
use homekey_household.Prelude.{
  ℕ, ◌*◌, ◌/◌, ◌%◌, ◌≤◌, ◌<◌, Text, strip, lstrip, is_space, le→leb, ==_iff, all, All, all-append,
  length, Bool, true, false, [], ◌∷◌, reverse, ◌≡◌, refl, arith,
}
use mathlib.Core.List.{reverse-append, reverse-reverse}
use homekey_household.Models.Errors.{ok}
use homekey_household.Command.Encoding.{
  Bytes, bytes, text, is_hex, hex_value, hex_digit, from_hex, to_hex, text_material, key_material,
}
use homekey_household.Command.Build.{Crypto, derive_command_key}

abbrev pub IsByte : ℕ → Type 0
IsByte b = b < 256

pub hex_value-digit : (n : ℕ) → n < 16 → hex_value (hex_digit n) ≡ n
unfolding hex_value hex_digit
hex_value-digit n h = ground arith

pub hex_digit-hex : (n : ℕ) → n < 16 → is_hex (hex_digit n) ≡ true
unfolding is_hex hex_digit
hex_digit-hex n h = ground arith

pub hex_not_space : (c : ℕ) → is_hex c ≡ true → is_space c ≡ false
unfolding is_hex is_space
hex_not_space c h = ground arith

pub from_hex-to_hex : (bs : Bytes) → All IsByte bs → from_hex (to_hex bs) ≡ bs
unfolding from_hex to_hex
from_hex-to_hex [] h = refl
from_hex-to_hex (b ∷ bs) h =
    ground (arith, hex_value-digit (b / 16), hex_value-digit (b % 16), from_hex-to_hex bs h.1)

pub all-hex : (bs : Bytes) → All IsByte bs → all is_hex (to_hex bs) ≡ true
unfolding to_hex
all-hex [] h = refl
all-hex (b ∷ bs) h = ground (arith, hex_digit-hex (b / 16), hex_digit-hex (b % 16), all-hex bs h.1)

length-to_hex : (bs : Bytes) → length (to_hex bs) ≡ 2 * length bs
unfolding to_hex
length-to_hex [] = refl
length-to_hex (b ∷ bs) = omega (arith, length-to_hex bs)

lstrip-hex : (s : Text) → all is_hex s ≡ true → lstrip s ≡ s
unfolding lstrip
lstrip-hex [] h = refl
lstrip-hex (c ∷ s) h = ground (arith, hex_not_space c)

all-reverse : (p : ℕ → Bool) (s : Text) → all p s ≡ true → all p (reverse s) ≡ true
all-reverse p [] h = refl
all-reverse p (c ∷ s) h =
    rw (reverse-append (c ∷ []) s)
      (rw (all-append p (reverse s) (c ∷ [])) (ground (arith, all-reverse p s)))

strip-hex : (s : Text) → all is_hex s ≡ true → strip s ≡ s
unfolding strip
strip-hex s h =
    rw (lstrip-hex s h, lstrip-hex (reverse s) (all-reverse is_hex s h)) (reverse-reverse s)

key_material-to_hex :
    (bs : Bytes) → All IsByte bs → 8 ≤ length bs → key_material (text (to_hex bs)) ≡ ok bs
unfolding key_material text_material
key_material-to_hex bs h long =
    rw (strip-hex (to_hex bs) (all-hex bs h), length-to_hex bs, all-hex bs h, from_hex-to_hex bs h)
      (rw (le→leb 16 (2 * length bs) (omega arith), (==_iff (2 * length bs % 2) 0).1 (omega arith)))

key_material-bytes : (bs : Bytes) → key_material (bytes bs) ≡ ok bs
unfolding key_material
key_material-bytes bs = refl

-- The key is the same whether the secret and the salt are given as the node's bytes or as the hex
-- form that the node exports, for a secret and a salt of eight bytes or more; so the client derives
-- the key that the node derives from its bytes.
pub derive_command_key_hex :
    (crypto : Crypto) (secret salt : Bytes)
    → All IsByte secret
    → All IsByte salt
    → 8 ≤ length secret
    → 8 ≤ length salt
    → derive_command_key crypto (text (to_hex secret)) (text (to_hex salt))
      ≡ derive_command_key crypto (bytes secret) (bytes salt)
unfolding derive_command_key
derive_command_key_hex crypto secret salt h k long enough = simp (
  key_material-to_hex secret h long,
  key_material-to_hex salt k enough,
  key_material-bytes secret,
  key_material-bytes salt,
)
