-- ===== src/Domain/Validation/Laws.antt =====
-- What an accepted number and an accepted body are like.
use arvan.Prelude.{
  ℕ, ◌≤◌, ◌<◌, Bool, true, false, [], ◌∷◌, ◌++◌, ◌≡◌, refl, arith, ltb, if◌then◌else◌,
}
use arvan.Prelude.Lists.{length}
use arvan.Domain.Errors.{ok, err, message_too_long}
use arvan.Domain.Types.{Runes, Encoding, gsm7, ucs2}
use arvan.Domain.Validation.{
  validate_e164, gsm7_allowed, gsm7_basic_chars, detect_encoding, max_length_for_encoding,
  validate_single_page_body,
}

-- A number that is accepted has from 9 to 16 runes, so that it fits the column to_number.
pub e164-length :
    (number : Runes) → validate_e164 number ≡ true → (9 ≤ length number) × (length number ≤ 16)
unfolding validate_e164
e164-length [] h = ground (arith, h)
e164-length (p ∷ []) h = ground (arith, h)
e164-length (p ∷ d ∷ ds) h = (ground (arith, h), ground (arith, h))

both-gsm7 :
    (allowed : Bool) (rest : Encoding)
    → (if allowed then rest else ucs2) ≡ gsm7
    → (allowed ≡ true) × (rest ≡ gsm7)
both-gsm7 true rest h = (refl, h)
both-gsm7 false rest h = absurd (ground (arith, h))

gsm7-all :
    (before after : Runes) (r : ℕ)
    → detect_encoding (before ++ r ∷ after) ≡ gsm7
    → gsm7_allowed r gsm7_basic_chars ≡ true
unfolding detect_encoding
gsm7-all [] after r h = (both-gsm7 _ _ h).0
gsm7-all (b ∷ before) after r h = gsm7-all before after r (both-gsm7 _ _ h).1

within :
    (max : ℕ) (e encoding : Encoding) (body : Runes)
    → (if ltb max (length body) then err message_too_long else ok e) ≡ ok encoding
    → (length body ≤ max) × (e ≡ encoding)
within max e encoding body h = (ground (arith, h), ground (arith, h))

long-gsm7 : (e : Encoding) (n : ℕ) → n ≤ max_length_for_encoding e → 70 < n → (e ≡ gsm7) × (n ≤ 160)
unfolding max_length_for_encoding
long-gsm7 gsm7 n h k = (refl, h)
long-gsm7 ucs2 n h k = absurd (omega (arith, h, k))

-- A body that is accepted with more than 70 runes has at most 160, and each of them, wherever it
-- stands, is in the GSM-7 alphabet.
pub single_page-long :
    (before after : Runes) (r : ℕ) (encoding : Encoding)
    → validate_single_page_body (before ++ r ∷ after) ≡ ok encoding
    → 70 < length (before ++ r ∷ after)
    → (length (before ++ r ∷ after) ≤ 160) × (gsm7_allowed r gsm7_basic_chars ≡ true)
unfolding validate_single_page_body
single_page-long before after r encoding h k =
    let fits = within _ _ encoding (before ++ r ∷ after) h in
    let (is_gsm7, short) = long-gsm7 _ _ fits.0 k in (short, gsm7-all before after r is_gsm7)
