-- ===== src/Catalogue/Code.antt =====
-- `toAsciiCode`, `shortHash` and `generateSkuCode` (product.slug.ts).
use Prim.Native.Nat.{bit_xor}
use flash_core.Common.{
  ℕ, zero, suc, ◌+◌, ◌-◌, ◌*◌, ◌/◌, ◌%◌, ◌^◌, Bool, [], ◌∷◌, ◌++◌, ◌==◌, ◌&&◌, ◌||◌, ltb, leb,
  if◌then◌else◌,
}
use flash_core.Common.Sequence.{length, take, drop}
use flash_core.Common.Table.{select}
use flash_core.Pages.{Text}
use flash_core.Catalogue.Slug.{Unicode, strip_diacritics}

-- `[A-Z0-9]`
abbrev pub is_code_char : ℕ → Bool
is_code_char c = (leb b'A' c && leb c b'Z') || (leb b'0' c && leb c b'9')

abbrev pub or_x : Text → Text
or_x [] = b'X' ∷ []
or_x (c ∷ s) = c ∷ s

unfoldable pub to_ascii_code : Unicode → Text → ℕ → Text
unfolding strip_diacritics
to_ascii_code unicode input max_length =
    or_x (take max_length (select is_code_char (unicode.upper (strip_diacritics unicode input))))

-- One step of FNV-1a: `hash ^= c; hash = Math.imul(hash, 0x01000193) >>> 0`.
unfoldable pub fnv_step : ℕ → ℕ → ℕ
fnv_step hash c = (bit_xor hash c * 0x0100_0193) % 2 ^ 32

unfoldable pub fnv_from : ℕ → Text → ℕ
unfolding fnv_step
fnv_from hash [] = hash
fnv_from hash (c ∷ s) = fnv_from (fnv_step hash c) s

-- A digit of `toString(36).toUpperCase()`.
abbrev pub base36_digit : ℕ → ℕ
base36_digit d = if ltb d 10 then b'0' + d else b'A' + (d - 10)

-- `toString(36)` of a positive number of at most `digits` digits, and nothing for 0: the padding
-- writes the zeros.
abbrev pub base36 : ℕ → ℕ → Text
base36 zero n = []
base36 (suc digits) n =
    let front = base36 digits (n / 36) in
    if n == 0 then [] else front ++ (base36_digit (n % 36) ∷ [])

abbrev pub zeros : ℕ → Text
zeros zero = []
zeros (suc n) = b'0' ∷ zeros n

-- `padStart(4, '0').slice(-4)`
abbrev pub last_four : Text → Text
last_four s = let padded = zeros (4 - length s) ++ s in drop (length padded - 4) padded

-- Seven digits of base 36 are enough for 32 bits.
unfoldable pub short_hash : Text → Text
unfolding fnv_from
short_hash input = last_four (base36 7 (fnv_from 0x811c_9dc5 input))

unfoldable pub generate_sku_code : Unicode → Text → Text → Text → Text
unfolding to_ascii_code short_hash
generate_sku_code unicode slug color size =
    to_ascii_code unicode slug 12
    ++ (b'-'
        ∷ (to_ascii_code unicode color 8
            ++ (b'-' ∷ (size ++ (b'-' ∷ short_hash (slug ++ (b'|' ∷ (color ++ (b'|' ∷ size)))))))))
