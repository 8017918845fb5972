-- ===== src/Csrf/Guard.antt =====
-- CsrfGuard and CsrfIssueMiddleware (csrf.guard.ts, csrf.middleware.ts) on HTTP requests.
use flash_core.Common.{
  Bool, true, false, Option, none, some, [], ◌∷◌, ◌==◌, ◌&&◌, ◌||◌, is_none, if◌then◌else◌,
}
use flash_core.Common.Texts.{same_text}
use flash_core.Store.{Result, ok, err, Error}
use flash_core.Pages.{Text}
use flash_core.Csrf.Token.{Hmac, CsrfFailure, issue_token, verify_token, verify_request}

pub record Request : Type 0 where
  pub method : Text
  pub path : Text
  pub origin : Option Text
  pub host : Option Text
  pub cookie : Option Text
  pub header : Option Text

-- `SAFE_METHODS`: GET, HEAD and OPTIONS.
abbrev pub is_safe_method : Text → Bool
is_safe_method m =
    same_text m (b'G' ∷ b'E' ∷ b'T' ∷ [])
    || (same_text m (b'H' ∷ b'E' ∷ b'A' ∷ b'D' ∷ [])
        || same_text m (b'O' ∷ b'P' ∷ b'T' ∷ b'I' ∷ b'O' ∷ b'N' ∷ b'S' ∷ []))

-- `EXEMPT_PATHS`: /payments/webhook.
abbrev pub exempt_path : Text
exempt_path =
    b'/' ∷ b'p' ∷ b'a' ∷ b'y' ∷ b'm' ∷ b'e' ∷ b'n' ∷ b't' ∷ b's' ∷ b'/' ∷ b'w' ∷ b'e' ∷ b'b' ∷ b'h'
    ∷ b'o' ∷ b'o' ∷ b'k' ∷ []

abbrev pub starts_with : Text → Text → Bool
starts_with [] s = true
starts_with (c ∷ p) [] = false
starts_with (c ∷ p) (d ∷ s) = c == d && starts_with p s

-- `parse` is `new URL(origin).host`, with nothing where it throws.
abbrev pub same_host : Option Text → Option Text → Bool
same_host none host = false
same_host (some h) none = false
same_host (some h) (some host) = same_text h host

-- An absent or empty Origin is let through.
abbrev pub is_origin_ok : (Text → Option Text) → Option Text → Option Text → Bool
is_origin_ok parse none host = true
is_origin_ok parse (some []) host = true
is_origin_ok parse (some (c ∷ origin)) host = same_host (parse (c ∷ origin)) host

abbrev pub refusal : Option CsrfFailure → Result (Unit {0})
refusal none = ok tt
refusal (some failure) = err Error.csrf_token_invalid

unfoldable pub csrf_guard : Hmac → Text → (Text → Option Text) → Request → Result (Unit {0})
unfolding verify_request
csrf_guard hmac secret parse req =
    if is_safe_method req.method
    then ok tt
    else if starts_with exempt_path req.path
    then ok tt
    else if is_origin_ok parse req.origin req.host
    then refusal (verify_request hmac secret req.cookie req.header)
    else err Error.csrf_token_invalid

-- The cookie that the middleware sets, if any: only where the one at hand is not valid.
unfoldable pub issued_cookie : Hmac → Text → Text → Option Text → Option Text
unfolding verify_token issue_token
issued_cookie hmac secret random existing =
    if is_none (verify_token hmac secret existing)
    then none
    else some (issue_token hmac secret random)
