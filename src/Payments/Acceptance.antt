-- ===== src/Payments/Acceptance.antt =====
-- Which webhook signatures are accepted.
use flash_core.Common.{ℕ, ◌≤◌, ◌≡◌, ◌↔◌, refl, true, none, some, List, [], ◌∷◌, arith, ==_refl}
use flash_core.Common.Sequence.{length}
use flash_core.Payments.Signature.{
  Text, ParsedHeader, Signed, same_bytes, distance, trim, parse_header, verify_parsed,
  verify_header, verify_signature,
}

same_bytes_sound : (a b : List ℕ) → same_bytes a b ≡ true → a ≡ b
unfolding same_bytes
same_bytes_sound [] [] h = refl
same_bytes_sound [] (y ∷ b) h = absurd (cc)
same_bytes_sound (x ∷ a) [] h = absurd (cc)
same_bytes_sound (x ∷ a) (y ∷ b) h = ground (arith, same_bytes_sound a b)

pub same_bytes_refl : (a : List ℕ) → same_bytes a a ≡ true
unfolding same_bytes
same_bytes_refl [] = refl
same_bytes_refl (x ∷ a) = ground (arith, same_bytes_refl a, ==_refl x)

module _ (hmac : Text → ℕ → Text → List ℕ) (input : Signed) (h : ParsedHeader) where
  abbrev expected : List ℕ
  expected = hmac input.secret h.timestamp input.raw_body

  verify_parsed_sound :
      verify_parsed hmac input (some h) ≡ none
      → (h.received ≡ expected) × (distance input.now_sec h.timestamp ≤ input.tolerance_sec)
  unfolding verify_parsed
  verify_parsed_sound accepted = (same_bytes_sound h.received expected (ground arith), ground arith)

  verify_parsed_complete :
      h.received ≡ expected
      → distance input.now_sec h.timestamp ≤ input.tolerance_sec
      → verify_parsed hmac input (some h) ≡ none
  unfolding verify_parsed
  verify_parsed_complete same near =
      rw same (ground (arith, ==_refl (length expected), same_bytes_refl expected))

-- A webhook whose header reads as a timestamp and a code is accepted exactly if the code is the HMAC
-- of that timestamp and the raw body under the secret, and the timestamp is within the tolerance.
pub verify_signature_accepts :
    (hmac : Text → ℕ → Text → List ℕ) (input : Signed) (c : ℕ) (s : Text) (h : ParsedHeader)
    → input.header ≡ some (c ∷ s)
    → parse_header (trim (c ∷ s)) ≡ some h
    → (verify_signature hmac input ≡ none) ↔ (
        (h.received ≡ hmac input.secret h.timestamp input.raw_body)
        × (distance input.now_sec h.timestamp ≤ input.tolerance_sec))
unfolding verify_signature verify_header
verify_signature_accepts hmac input c s h given parsed = (
  λ accepted. verify_parsed_sound hmac input h (rw (given, parsed) at accepted),
  λ valid. rw (given, parsed) (verify_parsed_complete hmac input h valid.0 valid.1),
)
