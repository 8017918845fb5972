-- ===== src/Pages/Cursor.antt =====
-- `encodeCursor`, `decodeCursor` and `paginate` (cursor.ts). Base64url, ISO dates and the spelling of
-- UUIDs belong to Node and PostgreSQL: they are the fields of `Codec`.
use flash_core.Common.{ℕ, Option, none, some, List, [], ◌∷◌, ◌++◌, ◌==◌, ltb, if◌then◌else◌}
use flash_core.Common.Sequence.{length, take, last_of}
use flash_core.Store.{Result, ok, err, Error}

abbrev pub Text : Type 0
Text = List ℕ

-- `parse_date` is `new Date(text)`, with nothing where it is an invalid date; `read_uuid` is what the
-- database makes of a text that it compares with a `uuid` column, with nothing where it throws.
pub record Codec : Type 0 where
  pub to_base64url : Text → Text
  pub of_base64url : Text → Text
  pub iso_date : ℕ → Text
  pub parse_date : Text → Option ℕ
  pub show_uuid : ℕ → Text
  pub read_uuid : Text → Option ℕ

pub record RawCursor : Type 0 where
  pub created_at : ℕ
  pub id : Text

-- The text before and after the last `_`.
unfoldable pub split_at_last : Text → Option (Text × Text)
split_at_last [] = none
split_at_last (c ∷ s) = elim (split_at_last s) [
  | some (before, after) ↦ some (c ∷ before, after)
  | none ↦ if c == b'_' then some ([], s) else none
]

unfoldable pub cursor_of : Option ℕ → Text → Result RawCursor
cursor_of none id = err Error.invalid_cursor
cursor_of (some date) [] = err Error.invalid_cursor
cursor_of (some date) (c ∷ id) = ok (record { created_at = date; id = c ∷ id })

unfoldable pub decode_split : Codec → Option (Text × Text) → Result RawCursor
unfolding cursor_of
decode_split codec none = err Error.invalid_cursor
decode_split codec (some (date, id)) = cursor_of (codec.parse_date date) id

unfoldable pub decode_cursor : Codec → Text → Result RawCursor
unfolding decode_split split_at_last
decode_cursor codec raw = decode_split codec (split_at_last (codec.of_base64url raw))

unfoldable pub encode_cursor : Codec → ℕ → Text → Text
encode_cursor codec created_at id = codec.to_base64url (codec.iso_date created_at ++ (b'_' ∷ id))

pub record Page (A : Type 0) : Type 0 where
  pub items : List A
  pub next_cursor : Option Text

-- `created_at` and `id` read a row's columns.
module _ {A : Type 0} (codec : Codec) (created_at id : A → ℕ) where
  abbrev pub cursor_after : Option A → Option Text
  cursor_after none = none
  cursor_after (some x) = some (encode_cursor codec (created_at x) (codec.show_uuid (id x)))

  unfoldable pub paginate : List A → ℕ → Page A
  paginate rows limit =
      if ltb limit (length rows)
      then (record {
        items = take limit rows;
        next_cursor = cursor_after (last_of (take limit rows));
      })
      else (record { items = rows; next_cursor = none })
