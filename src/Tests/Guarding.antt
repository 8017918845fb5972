-- ===== src/Tests/Guarding.antt =====
-- Requests at the CSRF guard.
use flash_core.Common.{◌≡◌, ◌↔◌, refl, true, Option, some, [], ◌∷◌, ◌++◌}
use flash_core.Store.{ok, err, Error}
use flash_core.Pages.{Text}
use flash_core.Catalogue.Code.{zeros}
use flash_core.Csrf.{Hmac, Request, is_origin_ok, csrf_guard}
use flash_core.Csrf.Signing.{IsIssued, csrf_guard-accepts}

-- A code that tells no two texts apart, of the right form.
abbrev constant : Hmac
constant = λ text secret. zeros 64

abbrev whole : Text → Option Text
whole = λ origin. some origin

abbrev post : Request
post = record {
  method = b'P' ∷ b'O' ∷ b'S' ∷ b'T' ∷ [];
  path = b'/' ∷ b'o' ∷ [];
  origin = some (b'h' ∷ []);
  host = some (b'h' ∷ []);
  cookie = some (zeros 64 ++ (b'.' ∷ zeros 64));
  header = some (zeros 64 ++ (b'.' ∷ zeros 64));
}

post_run : csrf_guard constant [] whole post ≡ ok tt
unfolding csrf_guard
post_run = refl

foreign_run :
    csrf_guard constant [] whole (record post { host = some (b'e' ∷ []) })
    ≡ err Error.csrf_token_invalid
unfolding csrf_guard
foreign_run = refl

csrf_guard-accepts_example : (csrf_guard constant [] whole post ≡ ok tt) ↔ (
    (is_origin_ok whole post.origin post.host ≡ true)
    × IsIssued constant [] post.cookie post.header)
csrf_guard-accepts_example = csrf_guard-accepts constant [] whole post refl refl
