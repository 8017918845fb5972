-- ===== src/Catalogue/Naming.antt =====
-- What the slugs and the codes look like.
use flash_core.Common.{
  ℕ, zero, suc, ◌+◌, ◌-◌, ◌≤◌, ◌≡◌, refl, Bool, true, false, [], ◌∷◌, ◌++◌, ◌==◌, ◌&&◌, ◌||◌, not,
  arith, if◌then◌else◌,
}
use flash_core.Common.Sequence.{length, take, length-append, length-take, length-drop}
use flash_core.Common.Table.{select}
use flash_core.Pages.{Text}
use flash_core.Catalogue.Slug.{
  Unicode, is_slug_char, dashed, strip_left, strip_right, prepend_unless_dash, without_marks,
  strip_diacritics, slugify,
}
use flash_core.Catalogue.Code.{
  to_ascii_code, short_hash, generate_sku_code, is_code_char, base36, zeros, last_four, or_x,
  fnv_from,
}

-- `slugSchema` of product.dto.ts, `^[a-z0-9]+(-[a-z0-9]+)*$`; the Boolean says that a letter or a
-- digit must come next.
abbrev pub is_slug_from : Bool → Text → Bool
is_slug_from wanted [] = not wanted
is_slug_from wanted (c ∷ s) =
    if is_slug_char c
    then is_slug_from false s
    else (c == b'-' && not wanted) && is_slug_from true s

abbrev pub is_slug : Text → Bool
is_slug s = is_slug_from true s

abbrev pub has_slug_char : Text → Bool
has_slug_char [] = false
has_slug_char (c ∷ s) = is_slug_char c || has_slug_char s

-- As a slug, but a dash may come last.
abbrev is_dashed : Bool → Text → Bool
is_dashed wanted [] = true
is_dashed wanted (c ∷ s) =
    if is_slug_char c then is_dashed false s else (c == b'-' && not wanted) && is_dashed true s

dashed-is_dashed : (in_run : Bool) (s : Text) → is_dashed in_run (dashed in_run s) ≡ true
dashed-is_dashed in_run [] = refl
dashed-is_dashed in_run (c ∷ s) = ground (arith, dashed-is_dashed (not (is_slug_char c)) s)

dashed-has_slug_char :
    (in_run : Bool) (s : Text) → has_slug_char (dashed in_run s) ≡ has_slug_char s
dashed-has_slug_char in_run [] = refl
dashed-has_slug_char in_run (c ∷ s) = ground (arith, dashed-has_slug_char (not (is_slug_char c)) s)

strip_left-is_dashed : (s : Text) → is_dashed false s ≡ true → is_dashed true (strip_left s) ≡ true
strip_left-is_dashed [] h = refl
strip_left-is_dashed (c ∷ []) h = ground arith
strip_left-is_dashed (c ∷ d ∷ s) h = ground arith

strip_left-has_slug_char : (s : Text) → has_slug_char (strip_left s) ≡ has_slug_char s
strip_left-has_slug_char [] = refl
strip_left-has_slug_char (c ∷ s) = ground (arith, strip_left-has_slug_char s)

only_dashes : (s : Text) → is_dashed true s ≡ true → has_slug_char s ≡ false → s ≡ []
only_dashes [] h k = refl
only_dashes (c ∷ s) h k = ground arith

strip_right-is_slug :
    (wanted : Bool) (s : Text)
    → is_dashed wanted s ≡ true
    → is_slug_from wanted (strip_right s) ≡ (not wanted || has_slug_char s)
strip_right-is_slug wanted [] h = ground arith
strip_right-is_slug wanted (c ∷ s) h =
    ground (arith, strip_right-is_slug false s, strip_right-is_slug true s, only_dashes s)

-- `slugify` gives a slug that `slugSchema` accepts exactly if a letter `a` to `z` or a digit is
-- left in the name once marks are taken off and letters made small.
pub slugify-is_slug :
    (unicode : Unicode) (name : Text)
    → is_slug (slugify unicode name)
      ≡ has_slug_char (unicode.trim (unicode.lower (strip_diacritics unicode name)))
unfolding slugify
slugify-is_slug unicode name =
    let s = unicode.trim (unicode.lower (strip_diacritics unicode name)) in
    rw
      (
        strip_right-is_slug true (strip_left (dashed false s))
            (strip_left-is_dashed (dashed false s) (dashed-is_dashed false s)),
        strip_left-has_slug_char (dashed false s),
        dashed-has_slug_char false s,
      )
      refl

-- A slug stays as it is.
is_slug_from-false : (s : Text) → is_slug s ≡ true → is_slug_from false s ≡ true
is_slug_from-false [] h = refl
is_slug_from-false (c ∷ s) h = ground arith

dashed_slug : (wanted : Bool) (s : Text) → is_slug_from wanted s ≡ true → dashed wanted s ≡ s
dashed_slug wanted [] h = refl
dashed_slug wanted (c ∷ s) h = ground (arith, dashed_slug false s, dashed_slug true s)

strip_left_slug : (s : Text) → is_slug s ≡ true → strip_left s ≡ s
strip_left_slug [] h = refl
strip_left_slug (c ∷ s) h = ground arith

slug_tail :
    (wanted : Bool) (c : ℕ) (s : Text)
    → is_slug_from wanted (c ∷ s) ≡ true
    → is_slug_from (not (is_slug_char c)) s ≡ true
slug_tail wanted c s h = ground arith

prepend_slug :
    (wanted : Bool) (c : ℕ) (s : Text)
    → is_slug_from wanted (c ∷ s) ≡ true
    → prepend_unless_dash c s ≡ c ∷ s
prepend_slug wanted c [] h = ground arith
prepend_slug wanted c (d ∷ s) h = refl

strip_right_slug : (wanted : Bool) (s : Text) → is_slug_from wanted s ≡ true → strip_right s ≡ s
strip_right_slug wanted [] h = refl
strip_right_slug wanted (c ∷ s) h =
    rw (strip_right_slug (not (is_slug_char c)) s (slug_tail wanted c s h))
      (prepend_slug wanted c s h)

without_marks_slug : (wanted : Bool) (s : Text) → is_slug_from wanted s ≡ true → without_marks s ≡ s
without_marks_slug wanted [] h = refl
without_marks_slug wanted (c ∷ s) h =
    ground (arith, without_marks_slug false s, without_marks_slug true s)

-- A slug that `slugSchema` accepts is its own slug, where normalizing, making small and trimming leave
-- it as it is.
pub slugify_slug :
    (unicode : Unicode) (s : Text)
    → is_slug s ≡ true
    → unicode.nfd s ≡ s
    → unicode.lower s ≡ s
    → unicode.trim s ≡ s
    → slugify unicode s ≡ s
unfolding slugify strip_diacritics
slugify_slug unicode s h normal small trimmed =
    rw
      (
        normal,
        without_marks_slug true s h,
        small,
        trimmed,
        dashed_slug false s (is_slug_from-false s h),
        strip_left_slug s h,
        strip_right_slug true s h,
      )
      refl

length-zeros : (n : ℕ) → length (zeros n) ≡ n
length-zeros zero = refl
length-zeros (suc n) = omega (arith, length-zeros n)

length-last_four : (s : Text) → length (last_four s) ≡ 4
length-last_four s = omega (
  arith,
  length-drop {0} (length (zeros (4 - length s) ++ s) - 4) (zeros (4 - length s) ++ s),
  length-append {0} (zeros (4 - length s)) s,
  length-zeros (4 - length s),
)

length-or_x :
    (n : ℕ) (s : Text) → 1 ≤ n → length s ≤ n → (1 ≤ length (or_x s)) × (length (or_x s) ≤ n)
length-or_x n [] h k = omega arith
length-or_x n (c ∷ s) h k = omega arith

length-to_ascii_code :
    (unicode : Unicode) (input : Text) (n : ℕ)
    → 1 ≤ n
    → (1 ≤ length (to_ascii_code unicode input n)) × (length (to_ascii_code unicode input n) ≤ n)
unfolding to_ascii_code
length-to_ascii_code unicode input n h =
    let chosen = select is_code_char (unicode.upper (strip_diacritics unicode input)) in
    length-or_x n (take n chosen) h (omega (arith, length-take {0} n chosen))

length-short_hash : (s : Text) → length (short_hash s) ≡ 4
unfolding short_hash
length-short_hash s = length-last_four (base36 7 (fnv_from 0x811c_9dc5 s))

-- Whatever the product and the color are called, a SKU code is at least nine characters long with the
-- size, and at most twenty-seven.
pub length-generate_sku_code :
    (unicode : Unicode) (slug color size : Text)
    → (length size + 9 ≤ length (generate_sku_code unicode slug color size))
      × (length (generate_sku_code unicode slug color size) ≤ length size + 27)
unfolding generate_sku_code
length-generate_sku_code unicode slug color size =
    let product_code = to_ascii_code unicode slug 12 in
    let color_code = to_ascii_code unicode color 8 in
    let suffix = short_hash (slug ++ (b'|' ∷ (color ++ (b'|' ∷ size)))) in
    omega (
      arith,
      length-to_ascii_code unicode slug 12 (omega arith),
      length-to_ascii_code unicode color 8 (omega arith),
      length-short_hash (slug ++ (b'|' ∷ (color ++ (b'|' ∷ size)))),
      length-append {0} size (b'-' ∷ suffix),
      length-append {0} color_code (b'-' ∷ (size ++ (b'-' ∷ suffix))),
      length-append {0} product_code (b'-' ∷ (color_code ++ (b'-' ∷ (size ++ (b'-' ∷ suffix))))),
    )
