-- ===== src/Pages/RoundTrip.antt =====
-- `encodeCursor` and `decodeCursor` (cursor.ts) as inverses.
use flash_core.Common.{ℕ, ◌≡◌, refl, Bool, false, none, some, [], ◌∷◌, ◌++◌, ◌==◌, ◌||◌, arith}
use flash_core.Store.{ok}
use flash_core.Pages.{
  Text, Codec, split_at_last, cursor_of, decode_split, decode_cursor, encode_cursor, place_of,
}

-- Does the text hold a `_`?
abbrev pub has_underscore : Text → Bool
has_underscore [] = false
has_underscore (c ∷ s) = (c == b'_') || has_underscore s

split-plain : (s : Text) → has_underscore s ≡ false → split_at_last s ≡ none
unfolding split_at_last
split-plain [] h = refl
split-plain (c ∷ s) h = ground (arith, split-plain s)

split-joined :
    (s t : Text) → has_underscore t ≡ false → split_at_last (s ++ (b'_' ∷ t)) ≡ some (s, t)
unfolding split_at_last
split-joined [] t h = rw (split-plain t h) refl
split-joined (c ∷ s) t h = rw (split-joined s t h) refl

-- A cursor that `encodeCursor` makes is read back as the date and the id it was made of, for every
-- non-empty id without a `_`, where base64url and the ISO date are read back as they were written.
pub decode-encode :
    (codec : Codec) (date : ℕ) (c : ℕ) (id : Text)
    → ((t : Text) → codec.of_base64url (codec.to_base64url t) ≡ t)
    → codec.parse_date (codec.iso_date date) ≡ some date
    → has_underscore (c ∷ id) ≡ false
    → decode_cursor codec (encode_cursor codec date (c ∷ id))
      ≡ ok (record { created_at = date; id = c ∷ id })
unfolding encode_cursor decode_cursor decode_split cursor_of
decode-encode codec date c id base parsed plain =
    rw
      (
        base (codec.iso_date date ++ (b'_' ∷ c ∷ id)),
        split-joined (codec.iso_date date) (c ∷ id) plain,
        parsed,
      )
      refl

-- So the place of the row that made a cursor is the place that the next request asks for.
pub place-encode :
    (codec : Codec) (date id : ℕ) (c : ℕ) (s : Text)
    → ((t : Text) → codec.of_base64url (codec.to_base64url t) ≡ t)
    → codec.parse_date (codec.iso_date date) ≡ some date
    → codec.show_uuid id ≡ c ∷ s
    → has_underscore (c ∷ s) ≡ false
    → codec.read_uuid (codec.show_uuid id) ≡ some id
    → place_of codec (some (encode_cursor codec date (codec.show_uuid id)))
      ≡ ok (some (record { created_at = date; id = id }))
unfolding place_of
place-encode codec date id c s base parsed shown plain back =
    rw (shown, decode-encode codec date c s base parsed plain)
      (let e : codec.read_uuid (c ∷ s) ≡ some id = rw shown at back in rw e refl)
