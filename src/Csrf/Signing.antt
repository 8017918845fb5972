-- ===== src/Csrf/Signing.antt =====
-- Which requests the CSRF guard lets through: only those with a token that `issueToken` made.
use flash_core.Common.{
  ℕ, ◌≤◌, ◌≡◌, ◌↔◌, refl, sym, ap, ◌∙◌, Bool, true, false, Option, none, some, List, [], ◌∷◌, ◌++◌,
  ◌&&◌, if◌then◌else◌, arith,
}
use flash_core.Common.Sequence.{length}
use flash_core.Common.Texts.{same_text, same_text_eq, same_text_refl}
use flash_core.Store.{ok, err, Error}
use flash_core.Pages.{Text}
use flash_core.Csrf.{
  Hmac, CsrfFailure, issue_token, prepend_head, split, all_hex, is_hex64, verify_parts,
  verify_token, verify_pair, verify_request, Request, is_safe_method, exempt_path, starts_with,
  is_origin_ok, refusal, csrf_guard,
}

-- The parts with dots between them.
abbrev joined : List Text → Text
joined [] = []
joined (p ∷ []) = p
joined (p ∷ q ∷ ps) = p ++ (b'.' ∷ joined (q ∷ ps))

joined-dot : (ps : List Text) → 1 ≤ length ps → joined ([] ∷ ps) ≡ b'.' ∷ joined ps
joined-dot [] h = absurd (omega arith)
joined-dot (p ∷ ps) h = refl

joined-prepend_head : (c : ℕ) (ps : List Text) → joined (prepend_head c ps) ≡ c ∷ joined ps
joined-prepend_head c [] = refl
joined-prepend_head c (p ∷ []) = refl
joined-prepend_head c (p ∷ q ∷ ps) = refl

length-prepend_head : (c : ℕ) (ps : List Text) → 1 ≤ length (prepend_head c ps)
length-prepend_head c [] = omega arith
length-prepend_head c (p ∷ ps) = omega arith

length-split : (s : Text) → 1 ≤ length (split s)
length-split [] = omega arith
length-split (c ∷ s) = ground (arith, length-prepend_head c (split s))

joined-split : (s : Text) → joined (split s) ≡ s
joined-split [] = refl
joined-split (c ∷ s) =
    ground (
      arith,
      joined-split s,
      joined-dot (split s) (length-split s),
      joined-prepend_head c (split s),
    )

split-hex : (s : Text) → all_hex s ≡ true → split s ≡ s ∷ []
split-hex [] h = refl
split-hex (c ∷ s) h = ground (arith, split-hex s)

split-joined :
    (r s : Text) → all_hex r ≡ true → all_hex s ≡ true → split (r ++ (b'.' ∷ s)) ≡ r ∷ s ∷ []
split-joined [] s h k = rw (split-hex s k) refl
split-joined (c ∷ r) s h k = ground (arith, split-joined r s)

module _ (hmac : Hmac) (secret : Text) where
  -- `random` and its code are 64 hexadecimal digits each.
  abbrev pub IsDrawn : Text → Type 0
  IsDrawn random = (is_hex64 random ≡ true) × (is_hex64 (hmac random secret) ≡ true)

  two_accepted :
      (r s : Text)
      → verify_parts hmac secret (r ∷ s ∷ []) ≡ none
      → (is_hex64 r ≡ true) × (is_hex64 s ≡ true) × (same_text s (hmac r secret) ≡ true)
  unfolding verify_parts
  two_accepted r s h = choice (is_hex64 r) (is_hex64 s) (same_text s (hmac r secret)) h
    where
      choice :
          (a b e : Bool)
          → ◌≡◌ {A = Option CsrfFailure}
              (if a && b
                then (if e then none else some CsrfFailure.signature_mismatch)
                else some CsrfFailure.malformed)
              none
          → (a ≡ true) × (b ≡ true) × (e ≡ true)
      choice true true true k = (refl, refl, refl)
      choice true true false k = absurd (cc)
      choice true false e k = absurd (cc)
      choice false b e k = absurd (cc)

  parts_accepted :
      (ps : List Text)
      → verify_parts hmac secret ps ≡ none
      → (random : Text) × IsDrawn random × (ps ≡ random ∷ hmac random secret ∷ [])
  unfolding verify_parts
  parts_accepted [] h = absurd (cc)
  parts_accepted (r ∷ []) h = absurd (cc)
  parts_accepted (r ∷ s ∷ []) h =
      let accepted = two_accepted r s h in
      let same : s ≡ hmac r secret = same_text_eq s (hmac r secret) accepted.2 in
      (r, (accepted.0, sym (ap is_hex64 same) ∙ accepted.1), ap (λ x. r ∷ x ∷ []) same)
  parts_accepted (r ∷ s ∷ t ∷ ps) h = absurd (cc)

  token_accepted :
      (t : Text)
      → verify_token hmac secret (some t) ≡ none
      → (random : Text) × IsDrawn random × (t ≡ issue_token hmac secret random)
  unfolding verify_token issue_token
  token_accepted [] h = absurd (cc)
  token_accepted (c ∷ s) h =
      let (random, drawn, parts) = parts_accepted (split (c ∷ s)) h in
      (random, drawn, sym (joined-split (c ∷ s)) ∙ ap joined parts)

  hex-length : (s : Text) → is_hex64 s ≡ true → all_hex s ≡ true
  hex-length s h = ground arith

  issued_parts :
      (random : Text)
      → IsDrawn random
      → verify_parts hmac secret (split (issue_token hmac secret random)) ≡ none
  unfolding verify_parts issue_token
  issued_parts random drawn =
      rw
        (
          split-joined random (hmac random secret) (hex-length random drawn.0)
              (hex-length (hmac random secret) drawn.1),
          drawn.0,
          drawn.1,
          same_text_refl (hmac random secret),
        )
        refl

  token_by_parts :
      (t : Text)
      → 1 ≤ length t
      → verify_token hmac secret (some t) ≡ verify_parts hmac secret (split t)
  unfolding verify_token
  token_by_parts [] h = absurd (omega arith)
  token_by_parts (c ∷ s) h = refl

  dotted_long : (r s : Text) → 1 ≤ length (r ++ (b'.' ∷ s))
  dotted_long [] s = omega arith
  dotted_long (c ∷ r) s = omega arith

  issued_accepted :
      (random : Text)
      → IsDrawn random
      → verify_token hmac secret (some (issue_token hmac secret random)) ≡ none
  unfolding issue_token
  issued_accepted random drawn =
      token_by_parts (issue_token hmac secret random) (dotted_long random (hmac random secret))
      ∙ issued_parts random drawn

  pair_accepted :
      (cookie header : Text)
      → verify_pair hmac secret cookie header ≡ none
      → (verify_token hmac secret (some cookie) ≡ none) × (cookie ≡ header)
  unfolding verify_pair
  pair_accepted [] header h = absurd (cc)
  pair_accepted (c ∷ s) [] h = absurd (cc)
  pair_accepted (c ∷ s) (d ∷ t) h = compared (same_text (c ∷ s) (d ∷ t)) refl h
    where
      compared :
          (b : Bool)
          → same_text (c ∷ s) (d ∷ t) ≡ b
          → (if b then verify_token hmac secret (some (c ∷ s)) else some CsrfFailure.mismatch)
            ≡ none
          → (verify_token hmac secret (some (c ∷ s)) ≡ none) × (c ∷ s ≡ d ∷ t)
      compared true e k = (k, same_text_eq (c ∷ s) (d ∷ t) e)
      compared false e k = absurd (cc)

  pair_same : (t : Text) → verify_pair hmac secret t t ≡ verify_token hmac secret (some t)
  unfolding verify_pair verify_token
  pair_same [] = refl
  pair_same (c ∷ s) = rw (same_text_refl (c ∷ s)) refl

  -- The cookie and the header are one token that `issueToken` made.
  abbrev pub IsIssued : Option Text → Option Text → Type 0
  IsIssued cookie header =
      (random : Text) × IsDrawn random
      × (cookie ≡ some (issue_token hmac secret random))
      × (header ≡ some (issue_token hmac secret random))

  request_accepted :
      (cookie header : Option Text)
      → verify_request hmac secret cookie header ≡ none
      → IsIssued cookie header
  unfolding verify_request
  request_accepted none header h = absurd (cc)
  request_accepted (some cookie) none h = absurd (cc)
  request_accepted (some cookie) (some header) h =
      let pair = pair_accepted cookie header h in
      let (random, drawn, made) = token_accepted cookie pair.0 in
      (random, drawn, ap some made, ap some (sym pair.1 ∙ made))

  issued_request :
      (cookie header : Option Text)
      → IsIssued cookie header
      → verify_request hmac secret cookie header ≡ none
  unfolding verify_request
  issued_request cookie header (random, drawn, c, h) =
      rw (c, h) (pair_same (issue_token hmac secret random) ∙ issued_accepted random drawn)

  refusal_ok : (f : Option CsrfFailure) → refusal f ≡ ok tt → f ≡ none
  refusal_ok none h = refl
  refusal_ok (some f) h = absurd (cc)

  origin_step :
      (b : Bool) (f : Option CsrfFailure)
      → (if b then refusal f else err Error.csrf_token_invalid) ≡ ok tt
      → (b ≡ true) × (f ≡ none)
  origin_step true f h = (refl, refusal_ok f h)
  origin_step false f h = absurd (cc)

  -- A request whose method changes state and whose path is not exempt passes the guard exactly if
  -- its Origin is absent, empty or names the host, and its cookie and its header are one and the
  -- same token that `issueToken` makes with the secret, of 64 hexadecimal digits and a code of 64.
  pub csrf_guard-accepts :
      (parse : Text → Option Text) (req : Request)
      → is_safe_method req.method ≡ false
      → starts_with exempt_path req.path ≡ false
      → (csrf_guard hmac secret parse req ≡ ok tt)
        ↔ ((is_origin_ok parse req.origin req.host ≡ true) × IsIssued req.cookie req.header)
  unfolding csrf_guard
  csrf_guard-accepts parse req unsafe checked =
      rw (unsafe, checked)
        (
          (λ h.
              let passed =
                origin_step (is_origin_ok parse req.origin req.host)
                  (verify_request hmac secret req.cookie req.header) h in
              (passed.0, request_accepted req.cookie req.header passed.1)),
          (λ (origin, issued). rw (origin, issued_request req.cookie req.header issued) refl),
        )
