-- ===== src/Csrf/Token.antt =====
-- `issueToken`, `verifyToken` and `verifyRequest` (csrf.token.ts). A text is its bytes. `Hmac` is the
-- hexadecimal HMAC-SHA256 of a text with a secret, of Node's crypto module.
use flash_core.Common.{
  ℕ, Bool, true, Option, none, some, List, [], ◌∷◌, ◌++◌, ◌==◌, ◌&&◌, ◌||◌, leb, if◌then◌else◌,
}
use flash_core.Common.Sequence.{length}
use flash_core.Common.Texts.{same_text}
use flash_core.Pages.{Text}

abbrev pub Hmac : Type 0
Hmac = Text → Text → Text

pub data CsrfFailure : Type 0 where
  missing malformed mismatch signature_mismatch : CsrfFailure

-- The random part is 32 random bytes in hexadecimal.
unfoldable pub issue_token : Hmac → Text → Text → Text
issue_token hmac secret random = random ++ (b'.' ∷ hmac random secret)

-- `split('.')`
abbrev pub prepend_head : ℕ → List Text → List Text
prepend_head c [] = (c ∷ []) ∷ []
prepend_head c (p ∷ ps) = (c ∷ p) ∷ ps

abbrev pub split : Text → List Text
split [] = [] ∷ []
split (c ∷ s) = let rest = split s in if c == b'.' then [] ∷ rest else prepend_head c rest

-- `/^[0-9a-f]{64}$/`
abbrev pub is_hex : ℕ → Bool
is_hex c = (leb b'0' c && leb c b'9') || (leb b'a' c && leb c b'f')

abbrev pub all_hex : Text → Bool
all_hex [] = true
all_hex (c ∷ s) = is_hex c && all_hex s

abbrev pub is_hex64 : Text → Bool
is_hex64 s = length s == 64 && all_hex s

-- Two parts; that neither is empty follows from their form.
unfoldable pub verify_parts : Hmac → Text → List Text → Option CsrfFailure
verify_parts hmac secret [] = some CsrfFailure.malformed
verify_parts hmac secret (random ∷ []) = some CsrfFailure.malformed
verify_parts hmac secret (random ∷ signature ∷ []) =
    if is_hex64 random && is_hex64 signature
    then (if same_text signature (hmac random secret)
        then none
        else some CsrfFailure.signature_mismatch)
    else some CsrfFailure.malformed
verify_parts hmac secret (random ∷ signature ∷ more ∷ parts) = some CsrfFailure.malformed

unfoldable pub verify_token : Hmac → Text → Option Text → Option CsrfFailure
unfolding verify_parts
verify_token hmac secret none = some CsrfFailure.missing
verify_token hmac secret (some []) = some CsrfFailure.missing
verify_token hmac secret (some (c ∷ s)) = verify_parts hmac secret (split (c ∷ s))

-- The cookie and the header, an empty one counting as none.
unfoldable pub verify_pair : Hmac → Text → Text → Text → Option CsrfFailure
unfolding verify_token
verify_pair hmac secret [] header = some CsrfFailure.missing
verify_pair hmac secret (c ∷ s) [] = some CsrfFailure.missing
verify_pair hmac secret (c ∷ s) (d ∷ t) =
    if same_text (c ∷ s) (d ∷ t)
    then verify_token hmac secret (some (c ∷ s))
    else some CsrfFailure.mismatch

unfoldable pub verify_request : Hmac → Text → Option Text → Option Text → Option CsrfFailure
unfolding verify_pair
verify_request hmac secret none header = some CsrfFailure.missing
verify_request hmac secret (some cookie) none = some CsrfFailure.missing
verify_request hmac secret (some cookie) (some header) = verify_pair hmac secret cookie header
