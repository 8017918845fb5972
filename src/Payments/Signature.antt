-- ===== src/Payments/Signature.antt =====
-- payment.signature.ts. HMAC-SHA256 is not in the repository: it is the parameter `hmac`, from the
-- secret, the timestamp and the raw body to the bytes of the code.
use flash_core.Common.{
  ℕ, ◌+◌, ◌-◌, ◌*◌, Bool, true, false, Option, none, some, List, [], ◌∷◌, ◌&&◌, ◌||◌, leb, ltb,
  ◌==◌, if◌then◌else◌, not,
}
use mathlib.Core.List.{reverse}
use flash_core.Common.Sequence.{length}

pub data SignatureFailure : Type 0 where
  missing malformed mismatch expired : SignatureFailure

abbrev pub Text : Type 0
Text = List ℕ

abbrev pub is_digit : ℕ → Bool
is_digit c = leb b'0' c && leb c b'9'

-- A digit of `[0-9a-f]`, lower case only.
abbrev pub hex_value : ℕ → Option ℕ
hex_value c =
    if is_digit c
    then some (c - b'0')
    else if leb b'a' c && leb c b'f'
    then some (c - b'a' + 10)
    else none

-- `t=(\d+),`: the value of the digits and what follows the comma, if there is a digit at all.
unfoldable pub decimal_until_comma : Bool → ℕ → Text → Option (ℕ × Text)
decimal_until_comma seen acc [] = none
decimal_until_comma seen acc (c ∷ s) =
    let rest = decimal_until_comma true (acc * 10 + (c - b'0')) s in
    if is_digit c then rest else if c == b',' && seen then some (acc, s) else none

-- `([0-9a-f]+)$`: the digits of the rest of the text.
unfoldable pub hex_digits : Text → Option (List ℕ)
hex_digits [] = some []
hex_digits (c ∷ s) = elim (hex_value c) [
  | none ↦ none
  | some d ↦ elim (hex_digits s) [ none ↦ none | some ds ↦ some (d ∷ ds) ]
]

-- `Buffer.from(text, 'hex')`: pairs of digits; an odd last digit is dropped.
unfoldable pub bytes_of_hex : List ℕ → List ℕ
bytes_of_hex [] = []
bytes_of_hex (d ∷ []) = []
bytes_of_hex (d ∷ e ∷ ds) = (d * 16 + e) ∷ bytes_of_hex ds

unfoldable pub same_bytes : List ℕ → List ℕ → Bool
same_bytes [] [] = true
same_bytes [] (b ∷ bs) = false
same_bytes (a ∷ as') [] = false
same_bytes (a ∷ as') (b ∷ bs) = a == b && same_bytes as' bs

-- The white space that `String.prototype.trim` takes off.
unfoldable pub is_space : ℕ → Bool
is_space c =
    (leb 9 c && leb c 13)
    || (c == 0x20 || c == 0xa0 || c == 0x1680 || (leb 0x2000 c && leb c 0x200a))
    || (c == 0x2028 || c == 0x2029 || c == 0x202f || c == 0x205f || c == 0x3000 || c == 0xfeff)

unfoldable pub trim_start : Text → Text
unfolding is_space
trim_start [] = []
trim_start (c ∷ s) = let rest = trim_start s in if is_space c then rest else c ∷ s

unfoldable pub trim : Text → Text
unfolding trim_start
trim s = reverse (trim_start (reverse (trim_start s)))

unfoldable pub after_prefix : Text → Text → Option Text
after_prefix [] s = some s
after_prefix (p ∷ ps) [] = none
after_prefix (p ∷ ps) (c ∷ s) = if c == p then after_prefix ps s else none

infixl 5 ◌>>=◌
abbrev ◌>>=◌ : {A B : Type 0} → Option A → (A → Option B) → Option B
none >>= f = none
some a >>= f = f a

-- A header that is read: the timestamp and the bytes of `v1`.
pub record ParsedHeader : Type 0 where
  pub timestamp : ℕ
  pub received : List ℕ

unfoldable pub parse_code : ℕ → Option (List ℕ) → Option ParsedHeader
unfolding bytes_of_hex
parse_code timestamp none = none
parse_code timestamp (some []) = none
parse_code timestamp (some (d ∷ ds)) =
    some (record { timestamp = timestamp; received = bytes_of_hex (d ∷ ds) })

-- `/^t=(\d+),v1=([0-9a-f]+)$/`. The comma is read with the digits before it.
unfoldable pub parse_header : Text → Option ParsedHeader
unfolding after_prefix decimal_until_comma hex_digits parse_code
parse_header s = do
  digits ← after_prefix (b't' ∷ b'=' ∷ []) s
  stamp ← decimal_until_comma false 0 digits
  code ← after_prefix (b'v' ∷ b'1' ∷ b'=' ∷ []) stamp.1
  parse_code stamp.0 (hex_digits code)

-- `Math.abs(now - timestamp)`.
abbrev pub distance : ℕ → ℕ → ℕ
distance a b = (a - b) + (b - a)

pub record Signed : Type 0 where
  pub header : Option Text
  pub raw_body : Text
  pub secret : Text
  pub tolerance_sec : ℕ
  pub now_sec : ℕ

module _ (hmac : Text → ℕ → Text → List ℕ) where
  unfoldable pub verify_parsed : Signed → Option ParsedHeader → Option SignatureFailure
  unfolding same_bytes
  verify_parsed input none = some SignatureFailure.malformed
  verify_parsed input (some h) =
      let expected = hmac input.secret h.timestamp input.raw_body in
      if not (length h.received == length expected)
      then some SignatureFailure.mismatch
      else if not (same_bytes h.received expected)
      then some SignatureFailure.mismatch
      else if ltb input.tolerance_sec (distance input.now_sec h.timestamp)
      then some SignatureFailure.expired
      else none

  -- `none` when the signature is valid.
  unfoldable pub verify_header : Signed → Option Text → Option SignatureFailure
  unfolding verify_parsed trim parse_header
  verify_header input none = some SignatureFailure.missing
  verify_header input (some []) = some SignatureFailure.missing
  verify_header input (some (c ∷ s)) = verify_parsed input (parse_header (trim (c ∷ s)))

  unfoldable pub verify_signature : Signed → Option SignatureFailure
  unfolding verify_header
  verify_signature input = verify_header input input.header
