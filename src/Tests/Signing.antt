-- ===== src/Tests/Signing.antt =====
-- A webhook header that is accepted.
use flash_core.Common.{
  ℕ, zero, suc, ◌%◌, ◌≤◌, ◌≡◌, ◌↔◌, refl, none, some, List, [], ◌∷◌, arith, leb, if◌then◌else◌,
}
use flash_core.Payments.Signature.{
  Text, Signed, SignatureFailure, distance, trim, parse_header, verify_signature,
}
use flash_core.Payments.Signing.{AreBytes, sign_payload, verify_signature-sign_payload}
use flash_core.Payments.Acceptance.{verify_signature_accepts}

-- A code of one byte, from the timestamp alone.
abbrev toy_hmac : Text → ℕ → Text → List ℕ
toy_hmac secret timestamp body = timestamp ∷ []

-- The text `t=19,v1=13`.
abbrev rest_of_header : Text
rest_of_header = b'=' ∷ b'1' ∷ b'9' ∷ b',' ∷ b'v' ∷ b'1' ∷ b'=' ∷ b'1' ∷ b'3' ∷ []

abbrev webhook : Signed
webhook = record {
  header = some (b't' ∷ rest_of_header);
  raw_body = [];
  secret = [];
  tolerance_sec = 300;
  now_sec = 200;
}

webhook_run : verify_signature toy_hmac webhook ≡ none
unfolding verify_signature
webhook_run = refl

late_run :
    verify_signature toy_hmac (record webhook { now_sec = 900 }) ≡ some SignatureFailure.expired
unfolding verify_signature
late_run = refl

verify_signature_accepts_example :
    (verify_signature toy_hmac webhook ≡ none)
    ↔ ((19 ∷ [] ≡ toy_hmac [] 19 []) × (distance 200 19 ≤ 300))
unfolding trim parse_header
verify_signature_accepts_example =
    verify_signature_accepts toy_hmac webhook b't' rest_of_header
      (record { timestamp = 19; received = 19 ∷ [] }) refl refl

abbrev ones : ℕ → List ℕ
ones zero = []
ones (suc n) = 1 ∷ ones n

ones-AreBytes : (n : ℕ) → AreBytes (ones n)
ones-AreBytes zero = tt
ones-AreBytes (suc n) = (omega arith, ones-AreBytes n)

-- A digest of 32 bytes that begins with the last byte of the timestamp.
abbrev toy_digest : Text → ℕ → Text → List ℕ
toy_digest secret timestamp body = (timestamp % 256) ∷ ones 31

signed_run :
    sign_payload (λ s t b. 0xa3 ∷ []) [] [] 19
    ≡ (b't' ∷ b'=' ∷ b'1' ∷ b'9' ∷ b',' ∷ b'v' ∷ b'1' ∷ b'=' ∷ b'a' ∷ b'3' ∷ [])
unfolding sign_payload
signed_run = refl

verify_signature-sign_payload_example :
    verify_signature toy_digest (record {
      header = some (sign_payload toy_digest (7 ∷ []) (8 ∷ []) 1_757_000_000);
      raw_body = 7 ∷ [];
      secret = 8 ∷ [];
      tolerance_sec = 300;
      now_sec = 1_757_000_100;
    })
    ≡ (if leb (distance 1_757_000_100 1_757_000_000) 300
        then none
        else some SignatureFailure.expired)
verify_signature-sign_payload_example =
    verify_signature-sign_payload toy_digest (7 ∷ []) (8 ∷ []) 1_757_000_000 300 1_757_000_100
      (refl, (omega arith, ones-AreBytes 31)) (omega arith)
