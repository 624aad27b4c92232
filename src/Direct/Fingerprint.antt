-- ===== src/Direct/Fingerprint.antt =====
-- direct.py: certificate fingerprints, and when two of them match.
use homekey_household.Prelude.{
  ℕ, ◌+◌, ◌-◌, ◌/◌, ◌%◌, ltb, leb, ◌==◌, Text, codes, text_eq, join, Bool, ◌&&◌, ◌||◌, [], ◌∷◌,
  ◌++◌, map, if◌then◌else◌,
}
use homekey_household.Command.Encoding.{Bytes}

-- `s.replace(c, "")`
unfoldable pub without : ℕ → Text → Text
without c [] = []
without c (d ∷ s) = let rest = without c s in if d == c then rest else d ∷ rest

-- The code points whose upper case holds an ASCII letter after a longer or a foreign form.
unfoldable pub special_upper : ℕ → Text
special_upper c =
    if c == 0x131
    then codes "I"
    else if c == 0x17F
    then codes "S"
    else if c == 0xDF
    then codes "SS"
    else if c == 0xFB00
    then codes "FF"
    else if c == 0xFB01
    then codes "FI"
    else if c == 0xFB02
    then codes "FL"
    else if c == 0xFB03
    then codes "FFI"
    else if c == 0xFB04
    then codes "FFL"
    else if c == 0xFB05 || c == 0xFB06
    then codes "ST"
    else if c == 0x149
    then 0x2BC ∷ codes "N"
    else if c == 0x1F0
    then b'J' ∷ 0x30C ∷ []
    else if c == 0x1E96
    then b'H' ∷ 0x331 ∷ []
    else if c == 0x1E97
    then b'T' ∷ 0x308 ∷ []
    else if c == 0x1E98
    then b'W' ∷ 0x30A ∷ []
    else if c == 0x1E99
    then b'Y' ∷ 0x30A ∷ []
    else if c == 0x1E9A
    then b'A' ∷ 0x2BE ∷ []
    else c ∷ []

-- `s.upper()`, as far as a comparison with ASCII hex can tell: the other code points keep to
-- themselves outside ASCII.
unfoldable pub upper_code : ℕ → Text
unfolding special_upper
upper_code c = if leb b'a' c && leb c b'z' then (c - 32) ∷ [] else special_upper c

unfoldable pub upper : Text → Text
unfolding upper_code
upper [] = []
upper (c ∷ s) = upper_code c ++ upper s

unfoldable pub normalise_fingerprint : Text → Text
unfolding upper without
normalise_fingerprint value = upper (without b'-' (without b' ' (without b':' value)))

-- One digit of `f"{byte:02X}"`
unfoldable pub upper_digit : ℕ → ℕ
upper_digit n = if ltb n 10 then n + b'0' else n - 10 + b'A'

unfoldable pub hex_byte : ℕ → Text
unfolding upper_digit
hex_byte b = upper_digit (b / 16) ∷ upper_digit (b % 16) ∷ []

unfoldable pub format_fingerprint : Bytes → Text
unfolding hex_byte join
format_fingerprint [] = []
format_fingerprint (b ∷ bs) = join b':' (hex_byte b) (map hex_byte bs)

unfoldable pub fingerprints_match : Text → Text → Bool
unfolding normalise_fingerprint
fingerprints_match expected actual =
    text_eq (normalise_fingerprint expected) (normalise_fingerprint actual)

-- `hashlib.sha256(der).digest()` is a parameter.
unfoldable pub certificate_fingerprint : (Bytes → Bytes) → Bytes → Text
unfolding format_fingerprint
certificate_fingerprint sha256 der = format_fingerprint (sha256 der)
