-- ===== src/Direct/Pinning.antt =====
-- direct.py: a fingerprint names one digest, whichever way it is written.
use homekey_household.Prelude.{
  ℕ, ◌/◌, ◌%◌, ◌<◌, ◌==◌, Text, text_eq_iff, join, All, all, Bool, true, false, ◌||◌, [], ◌∷◌, ◌≡◌,
  ◌↔◌, refl, ap, not, map, arith,
}
use homekey_household.Command.Encoding.{Bytes, to_hex, hex_digit}
use homekey_household.Command.Material.{IsByte}
use homekey_household.Direct.Fingerprint.{
  without, upper, upper_code, special_upper, normalise_fingerprint, upper_digit, hex_byte,
  format_fingerprint, fingerprints_match,
}

-- The digits of a digest in capitals, with nothing between them.
abbrev digits : Bytes → Text
digits [] = []
digits (b ∷ bs) = upper_digit (b / 16) ∷ upper_digit (b % 16) ∷ digits bs

upper_code-upper_digit : (n : ℕ) → n < 16 → upper_code (upper_digit n) ≡ upper_digit n ∷ []
unfolding upper_code upper_digit special_upper
upper_code-upper_digit n h = ground arith

upper_code-hex_digit : (n : ℕ) → n < 16 → upper_code (hex_digit n) ≡ upper_digit n ∷ []
unfolding upper_code upper_digit special_upper hex_digit
upper_code-hex_digit n h = ground arith

upper-digits : (bs : Bytes) → All IsByte bs → upper (digits bs) ≡ digits bs
unfolding upper
upper-digits [] h = refl
upper-digits (b ∷ bs) (byte, h) =
    rw
      (
        upper_code-upper_digit (b / 16) (omega arith),
        upper_code-upper_digit (b % 16) (omega arith),
        upper-digits bs h,
      )
      refl

upper-to_hex : (bs : Bytes) → All IsByte bs → upper (to_hex bs) ≡ digits bs
unfolding upper to_hex
upper-to_hex [] h = refl
upper-to_hex (b ∷ bs) (byte, h) =
    rw
      (
        upper_code-hex_digit (b / 16) (omega arith),
        upper_code-hex_digit (b % 16) (omega arith),
        upper-to_hex bs h,
      )
      refl

-- What stands between the digits of a fingerprint.
is_separator : ℕ → Bool
is_separator c = c == b':' || c == b' ' || c == b'-'

without_absent :
    (c : ℕ) (s : Text)
    → is_separator c ≡ true
    → all (λ d. not (is_separator d)) s ≡ true
    → without c s ≡ s
unfolding without is_separator
without_absent c [] h bare = refl
without_absent c (d ∷ s) h bare = ground (arith, without_absent c s)

upper_digit_bare : (n : ℕ) → n < 16 → is_separator (upper_digit n) ≡ false
unfolding upper_digit is_separator
upper_digit_bare n h = ground arith

hex_digit_bare : (n : ℕ) → n < 16 → is_separator (hex_digit n) ≡ false
unfolding hex_digit is_separator
hex_digit_bare n h = ground arith

digits_bare : (bs : Bytes) → All IsByte bs → all (λ d. not (is_separator d)) (digits bs) ≡ true
digits_bare [] h = refl
digits_bare (b ∷ bs) (byte, h) =
    rw
      (
        upper_digit_bare (b / 16) (omega arith),
        upper_digit_bare (b % 16) (omega arith),
        digits_bare bs h,
      )
      refl

to_hex_bare : (bs : Bytes) → All IsByte bs → all (λ d. not (is_separator d)) (to_hex bs) ≡ true
unfolding to_hex
to_hex_bare [] h = refl
to_hex_bare (b ∷ bs) (byte, h) =
    rw
      (
        hex_digit_bare (b / 16) (omega arith),
        hex_digit_bare (b % 16) (omega arith),
        to_hex_bare bs h,
      )
      refl

no_colon : (n : ℕ) → n < 16 → (upper_digit n == b':') ≡ false
unfolding upper_digit
no_colon n h = ground arith

without-joined :
    (b : ℕ) (bs : Bytes)
    → All IsByte (b ∷ bs)
    → without b':' (join b':' (hex_byte b) (map hex_byte bs)) ≡ digits (b ∷ bs)
unfolding without join hex_byte
without-joined b [] (byte, h) =
    rw (no_colon (b / 16) (omega arith), no_colon (b % 16) (omega arith)) refl
without-joined b (c ∷ bs) (byte, h) =
    rw (no_colon (b / 16) (omega arith), no_colon (b % 16) (omega arith), without-joined c bs h)
      refl

normalise-format :
    (bs : Bytes) → All IsByte bs → normalise_fingerprint (format_fingerprint bs) ≡ digits bs
unfolding normalise_fingerprint format_fingerprint
normalise-format [] h = unfold without upper in refl
normalise-format (b ∷ bs) h =
    let bare = digits_bare (b ∷ bs) h in
    rw
      (
        without-joined b bs h,
        without_absent b' ' (digits (b ∷ bs)) (unfold is_separator in refl) bare,
        without_absent b'-' (digits (b ∷ bs)) (unfold is_separator in refl) bare,
      )
      (upper-digits (b ∷ bs) h)

normalise-to_hex : (bs : Bytes) → All IsByte bs → normalise_fingerprint (to_hex bs) ≡ digits bs
unfolding normalise_fingerprint
normalise-to_hex bs h =
    let bare = to_hex_bare bs h in
    rw
      (
        without_absent b':' (to_hex bs) (unfold is_separator in refl) bare,
        without_absent b' ' (to_hex bs) (unfold is_separator in refl) bare,
        without_absent b'-' (to_hex bs) (unfold is_separator in refl) bare,
      )
      (upper-to_hex bs h)

upper_digit_inj : (m n : ℕ) → m < 16 → n < 16 → upper_digit m ≡ upper_digit n → m ≡ n
unfolding upper_digit
upper_digit_inj m n h k e = ground arith

byte_inj :
    (a b : ℕ)
    → a < 256
    → b < 256
    → upper_digit (a / 16) ≡ upper_digit (b / 16)
    → upper_digit (a % 16) ≡ upper_digit (b % 16)
    → a ≡ b
byte_inj a b h k high low =
    let highs = upper_digit_inj (a / 16) (b / 16) (omega arith) (omega arith) high in
    let lows = upper_digit_inj (a % 16) (b % 16) (omega arith) (omega arith) low in
    omega (arith, highs, lows)

digits_inj : (cs ds : Bytes) → All IsByte cs → All IsByte ds → digits cs ≡ digits ds → cs ≡ ds
digits_inj [] [] h k e = refl
digits_inj [] (b ∷ bs) h k e = cc
digits_inj (a ∷ cs) [] h k e = cc
digits_inj (a ∷ cs) (b ∷ bs) (x, h) (y, k) e =
    let same = byte_inj a b x y (cc e) (cc e) in
    let rest = digits_inj cs bs h k (cc e) in cc (same, rest)

-- Two texts that normalise to the digits of two digests match when the digests are the same.
matches_iff :
    (s t : Text) (cs ds : Bytes)
    → All IsByte cs
    → All IsByte ds
    → normalise_fingerprint s ≡ digits cs
    → normalise_fingerprint t ≡ digits ds
    → (fingerprints_match s t ≡ true) ↔ (cs ≡ ds)
unfolding fingerprints_match
matches_iff s t cs ds h k l r =
    rw (l, r)
      (
        λ m. digits_inj cs ds h k ((text_eq_iff (digits cs) (digits ds)).0 m),
        λ e. (text_eq_iff (digits cs) (digits ds)).1 (ap digits e),
      )

-- The fingerprint of one digest, as the node formats it or in bare lower-case hex, matches the
-- formatted fingerprint of another digest exactly when the two digests are the same.
pub fingerprints_match-formats :
    (pinned actual : Bytes)
    → All IsByte pinned
    → All IsByte actual
    → ((fingerprints_match (format_fingerprint pinned) (format_fingerprint actual) ≡ true)
        ↔ (pinned ≡ actual))
      × ((fingerprints_match (to_hex pinned) (format_fingerprint actual) ≡ true)
          ↔ (pinned ≡ actual))
fingerprints_match-formats pinned actual h k =
    let right = normalise-format actual k in
    (
      matches_iff _ _ pinned actual h k (normalise-format pinned h) right,
      matches_iff _ _ pinned actual h k (normalise-to_hex pinned h) right,
    )
