-- ===== src/Catalogue/Slug.antt =====
-- `slugify` (product.slug.ts). A text is its UTF-16 code units. What JavaScript's own functions do to
-- letters are the fields of `Unicode`.
use flash_core.Common.{ℕ, Bool, false, [], ◌∷◌, ◌==◌, ◌&&◌, ◌||◌, not, leb, if◌then◌else◌}
use flash_core.Pages.{Text}

-- `normalize('NFD')`, `toLowerCase`, `toUpperCase` and `trim`.
pub record Unicode : Type 0 where
  pub nfd : Text → Text
  pub lower : Text → Text
  pub upper : Text → Text
  pub trim : Text → Text

-- U+0300 to U+036F.
abbrev pub is_mark : ℕ → Bool
is_mark c = leb 0x300 c && leb c 0x36f

-- Marks go, and `đ` and `Đ` become `d` and `D`.
abbrev pub plain_letter : ℕ → ℕ
plain_letter c = if c == 0x111 then b'd' else if c == 0x110 then b'D' else c

abbrev pub without_marks : Text → Text
without_marks [] = []
without_marks (c ∷ s) = if is_mark c then without_marks s else plain_letter c ∷ without_marks s

unfoldable pub strip_diacritics : Unicode → Text → Text
strip_diacritics unicode s = without_marks (unicode.nfd s)

-- `[a-z0-9]`
abbrev pub is_slug_char : ℕ → Bool
is_slug_char c = (leb b'a' c && leb c b'z') || (leb b'0' c && leb c b'9')

-- `replace(/[^a-z0-9]+/g, '-')`; the Boolean says that the run before has its dash.
abbrev pub dashed : Bool → Text → Text
dashed in_run [] = []
dashed in_run (c ∷ s) =
    let rest = dashed (not (is_slug_char c)) s in
    if is_slug_char c then c ∷ rest else if in_run then rest else b'-' ∷ rest

-- `replace(/^-+|-+$/g, '')`, from the left and from the right.
abbrev pub strip_left : Text → Text
strip_left [] = []
strip_left (c ∷ s) = let rest = strip_left s in if c == b'-' then rest else c ∷ s

abbrev pub prepend_unless_dash : ℕ → Text → Text
prepend_unless_dash c [] = if c == b'-' then [] else c ∷ []
prepend_unless_dash c (d ∷ s) = c ∷ d ∷ s

abbrev pub strip_right : Text → Text
strip_right [] = []
strip_right (c ∷ s) = prepend_unless_dash c (strip_right s)

unfoldable pub slugify : Unicode → Text → Text
unfolding strip_diacritics
slugify unicode name =
    strip_right
      (strip_left (dashed false (unicode.trim (unicode.lower (strip_diacritics unicode name)))))
