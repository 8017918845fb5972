-- ===== src/Payments/Signing.antt =====
-- `signPayload` of payment.signature.ts, and that `verifySignature` reads what it writes. The bytes
-- of the code are the parameter `hmac` of Payments/Signature.
use mathlib.Core.List.{reverse, reverse-append, reverse-reverse}
use mathlib.Core.Path.{ap₂}
use flash_core.Common.{
  ℕ, zero, suc, ◌+◌, ◌-◌, ◌*◌, ◌/◌, ◌%◌, ◌^◌, ◌<◌, ◌≡◌, refl, ◌∙◌, sym, ap, Bool, true, false,
  Option, none, some, List, [], ◌∷◌, ◌++◌, ◌||◌, not, leb, ltb, ◌==◌, if◌then◌else◌, arith, ==_refl,
}
use flash_core.Common.Sequence.{length}
use flash_core.Payments.Acceptance.{same_bytes_refl}
use flash_core.Payments.Signature.{
  Text, hex_value, decimal_until_comma, hex_digits, bytes_of_hex, is_space, trim_start, trim,
  after_prefix, parse_code, parse_header, ParsedHeader, Signed, SignatureFailure, distance,
  verify_parsed, verify_header, verify_signature,
}

-- The digits of a number before `out`; 16 of them write every safe integer.
unfoldable pub digits_before : ℕ → ℕ → Text → Text
digits_before zero n out = out
digits_before (suc fuel) n out =
    let rest = digits_before fuel (n / 10) ((b'0' + n % 10) ∷ out) in if n == 0 then out else rest

-- `${timestampSec}`.
unfoldable pub decimal : ℕ → Text
unfolding digits_before
decimal n = if n == 0 then b'0' ∷ [] else digits_before 16 n []

abbrev pub hex_char : ℕ → ℕ
hex_char d = if ltb d 10 then b'0' + d else b'a' + (d - 10)

-- `digest('hex')`: two digits for a byte.
unfoldable pub hex_of_bytes : List ℕ → Text
hex_of_bytes [] = []
hex_of_bytes (b ∷ bytes) = hex_char (b / 16) ∷ hex_char (b % 16) ∷ hex_of_bytes bytes

module _ (hmac : Text → ℕ → Text → List ℕ) where
  unfoldable pub sign_payload : Text → Text → ℕ → Text
  unfolding decimal hex_of_bytes
  sign_payload raw_body secret timestamp =
      (b't' ∷ b'=' ∷ decimal timestamp)
      ++ (b',' ∷ b'v' ∷ b'1' ∷ b'=' ∷ hex_of_bytes (hmac secret timestamp raw_body))

digits_before-append :
    (fuel n : ℕ) (out s : Text) → digits_before fuel n out ++ s ≡ digits_before fuel n (out ++ s)
unfolding digits_before
digits_before-append zero n out s = refl
digits_before-append (suc fuel) n out s =
    ground (arith, digits_before-append fuel (n / 10) ((b'0' + n % 10) ∷ out) s)

read_digit :
    (seen : Bool) (acc d : ℕ) (s : Text)
    → d < 10
    → decimal_until_comma seen acc ((b'0' + d) ∷ s) ≡ decimal_until_comma true (acc * 10 + d) s
unfolding decimal_until_comma
read_digit seen acc d s small = ground arith

-- Reading the digits of `n` from 0 comes to `n`.
read_digits_before :
    (fuel n : ℕ) (seen : Bool) (out : Text)
    → n < 10 ^ fuel
    → decimal_until_comma seen 0 (digits_before fuel n out)
      ≡ decimal_until_comma (seen || not (n == 0)) n out
unfolding digits_before
read_digits_before zero n seen out small = ground arith
read_digits_before (suc fuel) n seen out small = ground (
  arith,
  read_digits_before fuel (n / 10) seen ((b'0' + n % 10) ∷ out),
  read_digit (seen || not (n / 10 == 0)) (n / 10) (n % 10) out,
)

read_decimal :
    (n : ℕ) (s : Text)
    → n < 10 ^ 16
    → decimal_until_comma false 0 (decimal n ++ (b',' ∷ s)) ≡ some (n, s)
unfolding decimal decimal_until_comma
read_decimal n s small =
    ground (
      arith,
      digits_before-append 16 n [] (b',' ∷ s),
      read_digits_before 16 n false (b',' ∷ s) small,
    )

-- Each element is a byte.
abbrev pub AreBytes : List ℕ → Type 0
AreBytes [] = Unit
AreBytes (b ∷ bytes) = (b < 256) × AreBytes bytes

abbrev nibbles : List ℕ → List ℕ
nibbles [] = []
nibbles (b ∷ bytes) = (b / 16) ∷ (b % 16) ∷ nibbles bytes

read_hex_char : (d : ℕ) → d < 16 → hex_value (hex_char d) ≡ some d
read_hex_char d small = ground arith

abbrev cons_digit : Option ℕ → Option (List ℕ) → Option (List ℕ)
cons_digit digit digits = elim digit [
  | none ↦ none
  | some d ↦ elim digits [ none ↦ none | some ds ↦ some (d ∷ ds) ]
]

hex_one :
    (c d : ℕ) (s : Text) (ds : List ℕ)
    → hex_value c ≡ some d
    → hex_digits s ≡ some ds
    → hex_digits (c ∷ s) ≡ some (d ∷ ds)
unfolding hex_digits
hex_one c d s ds hc hs = ap₂ cons_digit hc hs

hex_digits-hex_of_bytes :
    (bytes : List ℕ) → AreBytes bytes → hex_digits (hex_of_bytes bytes) ≡ some (nibbles bytes)
unfolding hex_digits hex_of_bytes
hex_digits-hex_of_bytes [] h = refl
hex_digits-hex_of_bytes (b ∷ bytes) h =
    hex_one (hex_char (b / 16)) (b / 16) (hex_char (b % 16) ∷ hex_of_bytes bytes)
      ((b % 16) ∷ nibbles bytes) (read_hex_char (b / 16) (omega (arith, h.0)))
      (hex_one (hex_char (b % 16)) (b % 16) (hex_of_bytes bytes) (nibbles bytes)
        (read_hex_char (b % 16) (omega arith)) (hex_digits-hex_of_bytes bytes h.1))

bytes_of_hex-nibbles : (bytes : List ℕ) → AreBytes bytes → bytes_of_hex (nibbles bytes) ≡ bytes
unfolding bytes_of_hex
bytes_of_hex-nibbles [] h = refl
bytes_of_hex-nibbles (b ∷ bytes) h = ground (arith, bytes_of_hex-nibbles bytes h.1)

-- The text ends in a unit that is no white space.
abbrev EndsInk : Text → Type 0
EndsInk s = (front : Text) × (last : ℕ) × (s ≡ front ++ (last ∷ [])) × (is_space last ≡ false)

hex_char-ink : (d : ℕ) → d < 16 → is_space (hex_char d) ≡ false
unfolding is_space
hex_char-ink d small = ground arith

after_ink : (c : ℕ) (s : Text) → EndsInk s → EndsInk (c ∷ s)
after_ink c s (front, last, e, ink) = (c ∷ front, last, ap (λ x. c ∷ x) e, ink)

hex_of_bytes-EndsInk :
    (b : ℕ) (bytes : List ℕ) → AreBytes (b ∷ bytes) → EndsInk (hex_of_bytes (b ∷ bytes))
unfolding hex_of_bytes
hex_of_bytes-EndsInk b [] h =
    (hex_char (b / 16) ∷ [], hex_char (b % 16), refl, hex_char-ink (b % 16) (omega arith))
hex_of_bytes-EndsInk b (c ∷ bytes) h =
    after_ink (hex_char (b / 16)) _
      (after_ink (hex_char (b % 16)) _ (hex_of_bytes-EndsInk c bytes h.1))

append-EndsInk : (front s : Text) → EndsInk s → EndsInk (front ++ s)
append-EndsInk [] s h = h
append-EndsInk (c ∷ front) s h = after_ink c (front ++ s) (append-EndsInk front s h)

trim_ink : (c : ℕ) (s : Text) → is_space c ≡ false → EndsInk (c ∷ s) → trim (c ∷ s) ≡ c ∷ s
unfolding trim trim_start
trim_ink c s ink (front, last, e, dark) = rw ink (
    ap (λ x. reverse (trim_start (reverse x))) e
    ∙ ap (λ x. reverse (trim_start x)) (reverse-append front (last ∷ []))
    ∙ rw dark (sym (ap reverse (reverse-append front (last ∷ []))) ∙ reverse-reverse _)
    ∙ sym e)

module _ (hmac : Text → ℕ → Text → List ℕ) (raw_body secret : Text) (timestamp : ℕ) where
  -- What Node's `createHmac('sha256', ...)` gives: 32 bytes.
  abbrev pub IsDigest : List ℕ → Type 0
  IsDigest bytes = (length bytes ≡ 32) × AreBytes bytes

  abbrev code : List ℕ
  code = hmac secret timestamp raw_body

  abbrev header : Text
  header = sign_payload hmac raw_body secret timestamp

  parse_code_lem :
      (bytes : List ℕ)
      → IsDigest bytes
      → parse_code timestamp (hex_digits (hex_of_bytes bytes))
        ≡ some (record { timestamp = timestamp; received = bytes })
  unfolding parse_code
  parse_code_lem [] (long, small) = absurd (omega (arith, long))
  parse_code_lem (b ∷ bytes) (long, small) =
      rw (hex_digits-hex_of_bytes (b ∷ bytes) small)
        (rw (bytes_of_hex-nibbles (b ∷ bytes) small) refl)

  parse_header-sign_payload :
      IsDigest code
      → timestamp < 10 ^ 16
      → parse_header header ≡ some (record { timestamp = timestamp; received = code })
  unfolding parse_header sign_payload after_prefix
  parse_header-sign_payload digest small =
      rw (read_decimal timestamp (b'v' ∷ b'1' ∷ b'=' ∷ hex_of_bytes code) small)
        (parse_code_lem code digest)

  digest-EndsInk : (bytes : List ℕ) → IsDigest bytes → EndsInk (hex_of_bytes bytes)
  digest-EndsInk [] (long, small) = absurd (omega (arith, long))
  digest-EndsInk (b ∷ bytes) (long, small) = hex_of_bytes-EndsInk b bytes small

  trim-sign_payload : IsDigest code → trim header ≡ header
  unfolding sign_payload is_space
  trim-sign_payload digest = trim_ink b't' _ refl (
      append-EndsInk (b't' ∷ b'=' ∷ decimal timestamp) _ (
        append-EndsInk (b',' ∷ b'v' ∷ b'1' ∷ b'=' ∷ []) (hex_of_bytes code)
          (digest-EndsInk code digest)))

  verify_header_read :
      (input : Signed) (c : ℕ) (s : Text) (h : ParsedHeader)
      → trim (c ∷ s) ≡ c ∷ s
      → parse_header (c ∷ s) ≡ some h
      → verify_header hmac input (some (c ∷ s)) ≡ verify_parsed hmac input (some h)
  unfolding verify_header
  verify_header_read input c s h whole parsed = rw (whole, parsed) refl

  -- What `signPayload` writes is accepted under the same secret and body as long as its timestamp is
  -- within the tolerance, and is reported as expired after that, if the code is a digest of 32 bytes
  -- and the timestamp has at most 16 digits.
  pub verify_signature-sign_payload :
      (tolerance now : ℕ)
      → IsDigest code
      → timestamp < 10 ^ 16
      → verify_signature hmac (record {
        header = some header;
        raw_body = raw_body;
        secret = secret;
        tolerance_sec = tolerance;
        now_sec = now;
      })
        ≡ (if leb (distance now timestamp) tolerance then none else some SignatureFailure.expired)
  unfolding verify_signature verify_parsed
  verify_signature-sign_payload tolerance now digest small =
      let input : Signed = record {
        header = some header;
        raw_body = raw_body;
        secret = secret;
        tolerance_sec = tolerance;
        now_sec = now;
      } in
      unfold sign_payload in
      verify_header_read input b't' _ (record { timestamp = timestamp; received = code })
        (trim-sign_payload digest) (parse_header-sign_payload digest small)
      ∙ ground (arith, ==_refl (length code), same_bytes_refl code)
