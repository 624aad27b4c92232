-- ===== src/Command/Encoding.antt =====
-- command.py, `_key_material` and `canonical_input`: bytes, hex and decimal text. The conversions of
-- `bytes` and `str` are Python's.
use homekey_household.Prelude.{
  ℕ, zero, suc, ◌+◌, ◌-◌, ◌*◌, ◌/◌, ◌%◌, Text, strip, ltb, leb, ◌==◌, length, all, Bool, ◌&&◌, ◌||◌,
  List, [], ◌∷◌, ◌++◌, ℤ, pos, negsuc, if◌then◌else◌,
}
use homekey_household.Models.Errors.{Result, ok, raise, ◌>>=◌, unexpected}

abbrev pub Bytes : Type 0
Bytes = List ℕ

-- The UTF-8 bytes of one code point; a surrogate cannot be encoded.
unfoldable pub encode_code : ℕ → Result Bytes
encode_code c =
    if ltb c 0x80
    then ok (c ∷ [])
    else if ltb c 0x800
    then ok ((0xC0 + c / 64) ∷ (0x80 + c % 64) ∷ [])
    else if leb 0xD800 c && leb c 0xDFFF
    then raise unexpected
    else if ltb c 0x10000
    then ok ((0xE0 + c / 4096) ∷ (0x80 + c / 64 % 64) ∷ (0x80 + c % 64) ∷ [])
    else ok
        ((0xF0 + c / 262144) ∷ (0x80 + c / 4096 % 64) ∷ (0x80 + c / 64 % 64) ∷ (0x80 + c % 64) ∷ [])

-- `text.encode("utf-8")`
unfoldable pub encode_utf8 : Text → Result Bytes
unfolding encode_code
encode_utf8 [] = ok []
encode_utf8 (c ∷ s) = do first ← encode_code c; rest ← encode_utf8 s; ok (first ++ rest)

-- `char in _HEX_DIGITS`
unfoldable pub is_hex : ℕ → Bool
is_hex c = (leb b'0' c && leb c b'9') || (leb b'a' c && leb c b'f') || (leb b'A' c && leb c b'F')

-- The value of a hex digit.
unfoldable pub hex_value : ℕ → ℕ
hex_value c = if leb c b'9' then c - b'0' else if leb b'a' c then c - b'a' + 10 else c - b'A' + 10

-- `bytes.fromhex`, of an even number of hex digits
unfoldable pub from_hex : Text → Bytes
unfolding hex_value
from_hex [] = []
from_hex (c ∷ []) = []
from_hex (c ∷ d ∷ s) = (hex_value c * 16 + hex_value d) ∷ from_hex s

unfoldable pub hex_digit : ℕ → ℕ
hex_digit n = if ltb n 10 then n + b'0' else n - 10 + b'a'

-- `bytes.hex()`
unfoldable pub to_hex : Bytes → Text
unfolding hex_digit
to_hex [] = []
to_hex (b ∷ bs) = hex_digit (b / 16) ∷ hex_digit (b % 16) ∷ to_hex bs

pub data Material : Type 0 where
  bytes : Bytes → Material
  text : Text → Material

abbrev pub min_hex_material_chars : ℕ
min_hex_material_chars = 16

-- What follows `text = value.strip()` in `_key_material`.
unfoldable pub text_material : Text → Result Bytes
unfolding is_hex from_hex
text_material t =
    if leb min_hex_material_chars (length t) && (length t % 2 == 0) && all is_hex t
    then ok (from_hex t)
    else encode_utf8 t

unfoldable pub key_material : Material → Result Bytes
unfolding text_material
key_material (bytes b) = ok b
key_material (text value) = text_material (strip value)

-- `str(n)`, of a natural number: on fuel, of which `n + 1` is more than there are digits.
unfoldable pub digits_fuel : ℕ → ℕ → Text → Text
digits_fuel zero n acc = acc
digits_fuel (suc f) n acc =
    let d = (n % 10 + b'0') ∷ acc in
    let rest = digits_fuel f (n / 10) d in if ltb n 10 then d else rest

unfoldable pub decimal : ℤ → Text
unfolding digits_fuel
decimal (pos n) = digits_fuel (n + 1) n []
decimal (negsuc n) = b'-' ∷ digits_fuel (n + 2) (n + 1) []

unfoldable pub canonical_input : ℤ → Text → Text → Text → Text
unfolding decimal
canonical_input ts nonce req_id action = decimal ts ++ (nonce ++ (req_id ++ action))
