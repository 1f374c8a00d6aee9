-- ===== src/Startup/Passhash.antt =====
-- The passhashes of Users.ini: 128 hexadecimal digits become 64 bytes (CConfiguration.cpp).
use Prim.Native.Nat.{◌%◌, ◌/◌}
use rosev_ircsystem.Common.{
  ℕ, ◌+◌, ◌-◌, ◌*◌, ◌<◌, ◌≡◌, refl, ap, ◌∙◌, Bool, not, ◌&&◌, ◌||◌, Option, none, some, [], ◌∷◌,
  ◌==◌, leb, ltb, if◌then◌else◌, length, All, arith,
}
use rosev_ircsystem.Text.{Text, lit}
use rosev_ircsystem.Startup.Result.{passhash, error, Result, ok, err}

-- SHA512_DIGEST_LENGTH of OpenSSL
abbrev pub sha512_digest_length : ℕ
sha512_digest_length = 64

-- isspace of the C locale
abbrev is_space : ℕ → Bool
is_space c = c == 32 || leb 9 c && leb c 13

abbrev hex_digit : ℕ → Option ℕ
hex_digit c =
    if leb b'0' c && leb c b'9'
    then some (c - b'0')
    else if leb b'a' c && leb c b'f'
    then some (c - b'a' + 10)
    else if leb b'A' c && leb c b'F'
    then some (c - b'A' + 10)
    else none

-- The digits up to the first byte that is none.
unfoldable pub hex_value : ℕ → Text → ℕ
hex_value n [] = n
hex_value n (c ∷ s) = elim (hex_digit c) [ none ↦ n | some d ↦ hex_value (n * 16 + d) s ]

-- static_cast<char>(strtol(..., NULL, 16)) of at most two bytes, as an unsigned byte. Two bytes leave
-- no room for a prefix 0x with a digit behind it.
unfoldable pub char_of : Text → ℕ
unfolding hex_value
char_of [] = 0
char_of (c ∷ s) =
    if is_space c
    then unspaced s
    else if c == b'-'
    then (256 - hex_value 0 s % 256) % 256
    else if c == b'+'
    then hex_value 0 s % 256
    else hex_value 0 (c ∷ s) % 256
  where
    -- One byte behind a space.
    unspaced : Text → ℕ
    unspaced s = hex_value 0 s % 256

-- The loop over the pairs of digits.
unfoldable pub bytes_of : Text → Text
unfolding char_of
bytes_of (c ∷ d ∷ s) = char_of (c ∷ d ∷ []) ∷ bytes_of s
bytes_of _ = []

-- The conversion of HexPasshash to BinaryPasshash.
unfoldable pub binary_passhash : Text → Result Text
unfolding bytes_of
binary_passhash hex =
    if not (length hex == 2 * sha512_digest_length)
    then err (error (lit "Length of a passhash must be 128 characters!") (passhash hex ∷ []))
    else ok (bytes_of hex)

-- The hexadecimal digits of bytes, as hash("sha512") of PHP prints them.
abbrev print_digit : ℕ → ℕ
print_digit n = if ltb n 10 then b'0' + n else b'a' + (n - 10)

unfoldable pub print_hex : Text → Text
print_hex [] = []
print_hex (c ∷ s) = print_digit (c / 16) ∷ print_digit (c % 16) ∷ print_hex s

digit_lem : (n : ℕ) → n < 16 → hex_digit (print_digit n) ≡ some n
digit_lem n h = ground arith

char_of-print : (c : ℕ) → c < 256 → char_of (print_digit (c / 16) ∷ print_digit (c % 16) ∷ []) ≡ c
unfolding char_of hex_value
char_of-print c h = ground (arith, digit_lem (c / 16), digit_lem (c % 16))

bytes_of-print_hex : (s : Text) → All (λ c. c < 256) s → bytes_of (print_hex s) ≡ s
unfolding bytes_of print_hex
bytes_of-print_hex [] h = refl
bytes_of-print_hex (c ∷ s) h = cc (char_of-print c h.0, bytes_of-print_hex s h.1)

length-print_hex : (s : Text) → length (print_hex s) ≡ 2 * length s
unfolding print_hex
length-print_hex [] = refl
length-print_hex (c ∷ s) = omega (arith, length-print_hex s)

binary_passhash-eq-ok :
    (hex : Text) → length hex ≡ 2 * sha512_digest_length → binary_passhash hex ≡ ok (bytes_of hex)
unfolding binary_passhash
binary_passhash-eq-ok hex e = rw e

-- The lowercase hexadecimal digits of 64 bytes are read as these bytes.
pub binary_passhash-print_hex :
    (s : Text)
    → length s ≡ sha512_digest_length
    → All (λ c. c < 256) s
    → binary_passhash (print_hex s) ≡ ok s
binary_passhash-print_hex s l h =
    binary_passhash-eq-ok (print_hex s) (omega (arith, length-print_hex s, l))
    ∙ ap ok (bytes_of-print_hex s h)
