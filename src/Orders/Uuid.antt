-- ===== src/Orders/Uuid.antt =====
-- UUID_PATTERN of order.service.ts, over the code points of the path parameter, and the 128-bit
-- number that PostgreSQL's cast `::uuid` makes of a text of that form.
use flash_core.Common.{
  ℕ, zero, suc, ◌+◌, ◌-◌, ◌*◌, Option, none, some, List, [], ◌∷◌, ◌&&◌, leb, ◌==◌, if◌then◌else◌,
}

-- One digit of `[0-9a-f]` under the flag `i`.
unfoldable pub hex_digit : ℕ → Option ℕ
hex_digit c =
    if leb b'0' c && leb c b'9'
    then some (c - b'0')
    else if leb b'a' c && leb c b'f'
    then some (c - b'a' + 10)
    else if leb b'A' c && leb c b'F'
    then some (c - b'A' + 10)
    else none

-- `n` digits, read behind the value so far, and what follows them.
unfoldable pub hex_group : ℕ → ℕ → List ℕ → Option (ℕ × List ℕ)
hex_group zero acc s = some (acc, s)
hex_group (suc n) acc [] = none
hex_group (suc n) acc (c ∷ s) = elim (hex_digit c) [
  | none ↦ none
  | some d ↦ hex_group n (acc * 16 + d) s
]

unfoldable pub dash : ℕ × List ℕ → Option (ℕ × List ℕ)
dash (acc, []) = none
dash (acc, c ∷ s) = if c == b'-' then some (acc, s) else none

infixl 5 ◌>>=◌
abbrev ◌>>=◌ : {A B : Type 0} → Option A → (A → Option B) → Option B
none >>= f = none
some a >>= f = f a

unfoldable pub at_end : ℕ × List ℕ → Option ℕ
at_end (acc, []) = some acc
at_end (acc, c ∷ s) = none

-- 8, 4, 4, 4 and 12 digits, and nothing more.
unfoldable pub parse_uuid : List ℕ → Option ℕ
unfolding hex_group dash at_end hex_digit
parse_uuid s = do
  a ← hex_group 8 0 s
  b ← dash a
  c ← hex_group 4 b.0 b.1
  d ← dash c
  e ← hex_group 4 d.0 d.1
  f ← dash e
  g ← hex_group 4 f.0 f.1
  h ← dash g
  i ← hex_group 12 h.0 h.1
  at_end i
