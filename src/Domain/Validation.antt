-- ===== src/Domain/Validation.antt =====
-- internal/domain/sms_validation.go: phone numbers, encodings and the single-page limit.
pub mod Laws
use arvan.Prelude.{ℕ, Bool, true, false, ◌&&◌, ◌||◌, List, [], ◌∷◌, ltb, leb, ◌==◌, if◌then◌else◌}
use arvan.Prelude.Lists.{length}
use arvan.Domain.Errors.{Result, ok, err, message_too_long}
use arvan.Domain.Types.{Runes, Encoding, gsm7, ucs2}

abbrev pub gsm7_max_length : ℕ
gsm7_max_length = 160

abbrev pub ucs2_max_length : ℕ
ucs2_max_length = 70

abbrev digit : ℕ → Bool
digit r = leb b'0' r && leb r b'9'

abbrev all_digits : Runes → Bool
all_digits [] = true
all_digits (r ∷ rs) = if digit r then all_digits rs else false

-- The rest of the pattern `^\+[1-9]\d{7,14}$` behind the plus sign and behind the first digit.
abbrev tail_digits : Runes → Bool
tail_digits rs = all_digits rs && (leb 7 (length rs) && leb (length rs) 14)

abbrev country_digits : Runes → Bool
country_digits [] = false
country_digits (r ∷ rs) = (leb b'1' r && leb r b'9') && tail_digits rs

unfoldable pub validate_e164 : Runes → Bool
validate_e164 [] = false
validate_e164 (r ∷ rs) = (r == b'+') && country_digits rs

-- `gsm7BasicChars`: the text as its code points, in the order of the source.
abbrev pub gsm7_basic_chars : List ℕ
gsm7_basic_chars =
    0x40 ∷ 0xa3 ∷ 0x24 ∷ 0xa5 ∷ 0xe8 ∷ 0xe9 ∷ 0xf9 ∷ 0xec ∷ 0xf2 ∷ 0xc7 ∷ 0xa ∷ 0xd8 ∷ 0xf8 ∷ 0xd
    ∷ 0xc5 ∷ 0xe5 ∷ 0x394 ∷ 0x5f ∷ 0x3a6 ∷ 0x393 ∷ 0x39b ∷ 0x3a9 ∷ 0x3a0 ∷ 0x3a8 ∷ 0x3a3 ∷ 0x398
    ∷ 0x39e ∷ 0x20 ∷ 0xc6 ∷ 0xe6 ∷ 0xdf ∷ 0xc9 ∷ 0x20 ∷ 0x21 ∷ 0x22 ∷ 0x23 ∷ 0xa4 ∷ 0x25 ∷ 0x26
    ∷ 0x27 ∷ 0x28 ∷ 0x29 ∷ 0x2a ∷ 0x2b ∷ 0x2c ∷ 0x2d ∷ 0x2e ∷ 0x2f ∷ 0x30 ∷ 0x31 ∷ 0x32 ∷ 0x33
    ∷ 0x34 ∷ 0x35 ∷ 0x36 ∷ 0x37 ∷ 0x38 ∷ 0x39 ∷ 0x3a ∷ 0x3b ∷ 0x3c ∷ 0x3d ∷ 0x3e ∷ 0x3f ∷ 0xa1
    ∷ 0x41 ∷ 0x42 ∷ 0x43 ∷ 0x44 ∷ 0x45 ∷ 0x46 ∷ 0x47 ∷ 0x48 ∷ 0x49 ∷ 0x4a ∷ 0x4b ∷ 0x4c ∷ 0x4d
    ∷ 0x4e ∷ 0x4f ∷ 0x50 ∷ 0x51 ∷ 0x52 ∷ 0x53 ∷ 0x54 ∷ 0x55 ∷ 0x56 ∷ 0x57 ∷ 0x58 ∷ 0x59 ∷ 0x5a
    ∷ 0xc4 ∷ 0xd6 ∷ 0xd1 ∷ 0xdc ∷ 0xa7 ∷ 0xbf ∷ 0x61 ∷ 0x62 ∷ 0x63 ∷ 0x64 ∷ 0x65 ∷ 0x66 ∷ 0x67
    ∷ 0x68 ∷ 0x69 ∷ 0x6a ∷ 0x6b ∷ 0x6c ∷ 0x6d ∷ 0x6e ∷ 0x6f ∷ 0x70 ∷ 0x71 ∷ 0x72 ∷ 0x73 ∷ 0x74
    ∷ 0x75 ∷ 0x76 ∷ 0x77 ∷ 0x78 ∷ 0x79 ∷ 0x7a ∷ 0xe4 ∷ 0xf6 ∷ 0xf1 ∷ 0xfc ∷ 0xe0 ∷ []

unfoldable pub gsm7_allowed : ℕ → List ℕ → Bool
gsm7_allowed r [] = false
gsm7_allowed r (c ∷ cs) = if r == c then true else gsm7_allowed r cs

unfoldable pub detect_encoding : Runes → Encoding
detect_encoding [] = gsm7
detect_encoding (r ∷ rs) =
    let rest = detect_encoding rs in if gsm7_allowed r gsm7_basic_chars then rest else ucs2

unfoldable pub max_length_for_encoding : Encoding → ℕ
max_length_for_encoding ucs2 = ucs2_max_length
max_length_for_encoding gsm7 = gsm7_max_length

unfoldable pub validate_single_page_body : Runes → Result Encoding
unfolding detect_encoding max_length_for_encoding
validate_single_page_body body =
    let encoding = detect_encoding body in
    if ltb (max_length_for_encoding encoding) (length body)
    then err message_too_long
    else ok encoding
