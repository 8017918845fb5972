-- ===== src/Pages/Keyset.antt =====
-- The keyset queries: `WHERE visible AND (created_at, id) < cursor ORDER BY created_at DESC, id DESC
-- LIMIT limit + 1`, as `listOrdersOfUser`, `listProducts` and `listSkus` have them.
use flash_core.Common.{ℕ, ◌+◌, Bool, Option, none, some, List, ◌==◌, ◌&&◌, ◌||◌, ltb}
use flash_core.Common.Sequence.{take, sort_with}
use flash_core.Common.Table.{select}
use flash_core.Store.{Result, ok, err, Error}
use flash_core.Pages.Cursor.{Text, Codec, RawCursor, decode_cursor, Page, paginate}

-- What a page is asked for: a row's place in the order.
pub record Place : Type 0 where
  pub created_at : ℕ
  pub id : ℕ

-- `a` stands before `b` in the order, newest first.
abbrev pub precedes : Place → Place → Bool
precedes a b = ltb b.created_at a.created_at || (b.created_at == a.created_at && ltb b.id a.id)

abbrev pub place_read : ℕ → Option ℕ → Result (Option Place)
place_read created_at none = err Error.query_failed
place_read created_at (some id) = ok (some (record { created_at = created_at; id = id }))

abbrev pub place_decoded : Codec → Result RawCursor → Result (Option Place)
place_decoded codec (err e) = err e
place_decoded codec (ok cursor) = place_read cursor.created_at (codec.read_uuid cursor.id)

-- `query.cursor ? decodeCursor(query.cursor) : undefined`, and the database's reading of the id.
unfoldable pub place_of : Codec → Option Text → Result (Option Place)
unfolding decode_cursor
place_of codec none = ok none
place_of codec (some raw) = place_decoded codec (decode_cursor codec raw)

module _ {A : Type 0} (codec : Codec) (created_at id : A → ℕ) (visible : A → Bool) where
  abbrev pub place : A → Place
  place x = record { created_at = created_at x; id = id x }

  abbrev pub comes_first : A → A → Bool
  comes_first x y = precedes (place x) (place y)

  -- The WHERE clause.
  abbrev pub is_after : Option Place → A → Bool
  is_after none x = visible x
  is_after (some p) x = visible x && precedes p (place x)

  unfoldable pub keyset_rows : Option Place → ℕ → List A → List A
  keyset_rows p limit table = take (limit + 1) (sort_with comes_first (select (is_after p) table))

  unfoldable pub page_at : ℕ → List A → Result (Option Place) → Result (Page A)
  unfolding keyset_rows paginate
  page_at limit table (err e) = err e
  page_at limit table (ok p) = ok (paginate codec created_at id (keyset_rows p limit table) limit)

  unfoldable pub list_page : Option Text → ℕ → List A → Result (Page A)
  unfolding page_at place_of
  list_page raw limit table = page_at limit table (place_of codec raw)
