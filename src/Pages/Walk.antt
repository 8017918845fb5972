-- ===== src/Pages/Walk.antt =====
-- The pages of a list (paginate in cursor.ts, with the keyset queries of the repositories), asked for
-- one after the other as a client does.
use flash_core.Common.{
  ℕ, zero, suc, ◌+◌, ◌≤◌, ◌<◌, ◌≡◌, refl, sym, ◌∙◌, Bool, true, false, Option, none, some, List, [],
  ◌∷◌, ◌++◌, ◌==◌, ◌&&◌, not, inl, inr, short_or_long, leb, arith, ap,
}
use flash_core.Common.Sequence.{
  length, take, drop, sort_with, last_of, length-take, take_all, take-append-drop, length-drop,
  take-take-suc,
}
use flash_core.Common.Table.{select}
use flash_core.Common.Ordered
use flash_core.Store.{Result, ok, err, Error}
use flash_core.Pages.{
  Text, Codec, Place, precedes, Page, paginate, encode_cursor, place_of, place, comes_first,
  is_after, keyset_rows, page_at, list_page,
}
use flash_core.Pages.RoundTrip.{has_underscore, place-encode}

-- What the pages rely on of base64url, ISO dates up to `latest`, and UUIDs.
pub record IsReadable (codec : Codec) (latest : ℕ) : Type 0 where
  pub base64url : (t : Text) → codec.of_base64url (codec.to_base64url t) ≡ t
  pub date : (d : ℕ) → d ≤ latest → codec.parse_date (codec.iso_date d) ≡ some d
  pub uuid : (i : ℕ) → codec.read_uuid (codec.show_uuid i) ≡ some i
  pub uuid_plain : (i : ℕ) → has_underscore (codec.show_uuid i) ≡ false
  pub uuid_some : (i : ℕ) → 1 ≤ length (codec.show_uuid i)

precedes_trans : (a b c : Place) → precedes a b ≡ true → precedes b c ≡ true → precedes a c ≡ true
precedes_trans a b c h k = ground arith

precedes_asym : (a b : Place) → precedes a b ≡ true → precedes b a ≡ false
precedes_asym a b h = ground arith

-- A row's cursor is read back as its place.
place-cursor :
    (codec : Codec) (latest : ℕ)
    → IsReadable codec latest
    → (d i : ℕ) → d ≤ latest
    → place_of codec (some (encode_cursor codec d (codec.show_uuid i)))
      ≡ ok (some (record { created_at = d; id = i }))
place-cursor codec latest readable d i h = shown (codec.show_uuid i) refl
  where
    shown :
        (t : Text)
        → codec.show_uuid i ≡ t
        → place_of codec (some (encode_cursor codec d (codec.show_uuid i)))
          ≡ ok (some (record { created_at = d; id = i }))
    shown [] e = absurd (omega (arith, readable.uuid_some i, ap length e))
    shown (c ∷ s) e =
        place-encode codec d i c s readable.base64url (readable.date d h) e
          (sym (ap has_underscore e) ∙ readable.uuid_plain i) (readable.uuid i)

module _ {A : Type 0} (codec : Codec) (created_at id : A → ℕ) (visible : A → Bool) where
  -- One request after the other, each with the last page's cursor, until a page has none; `requests`
  -- bounds their number.
  unfoldable and_then : List A → Result (List A) → Result (List A)
  and_then xs (err e) = err e
  and_then xs (ok ys) = ok (xs ++ ys)

  unfoldable followed : (Text → Result (List A)) → Result (Page A) → Result (List A)
  unfolding and_then
  followed next (err e) = err e
  followed next (ok page) = elim page.next_cursor [
    | none ↦ ok page.items
    | some raw ↦ and_then page.items (next raw)
  ]

  unfoldable pub walk : ℕ → ℕ → List A → Option Text → Result (List A)
  unfolding followed
  walk zero limit table raw = err Error.unrecoverable
  walk (suc requests) limit table raw =
      followed (λ next. walk requests limit table (some next))
        (list_page codec created_at id visible raw limit table)

  -- Rows of different ids can be compared.
  abbrev pub distinct_ids : List A → Bool
  distinct_ids [] = true
  distinct_ids (x ∷ xs) = Ordered.all_rows (λ y. not (id x == id y)) xs && distinct_ids xs

  abbrev before : A → A → Bool
  before = comes_first codec created_at id visible

  distinct-comparable :
      (xs : List A) → distinct_ids xs ≡ true → Ordered.all_comparable before xs ≡ true
  distinct-comparable [] h = refl
  distinct-comparable (x ∷ xs) h = ground (
    arith,
    distinct-comparable xs,
    Ordered.all_rows-map (λ (y : A). not (id x == id y)) (Ordered.comparable before x)
        (λ y e. ground arith) xs,
  )

  trans : (x y z : A) → before x y ≡ true → before y z ≡ true → before x z ≡ true
  trans x y z =
      precedes_trans (place codec created_at id visible x) (place codec created_at id visible y)
        (place codec created_at id visible z)

  asym : (x y : A) → before x y ≡ true → before y x ≡ false
  asym x y =
      precedes_asym (place codec created_at id visible x) (place codec created_at id visible y)

  abbrev beyond : Option Place → A → Bool
  beyond none x = true
  beyond (some p) x = precedes p (place codec created_at id visible x)

  -- All that there is to list, and what of it stands after a place.
  abbrev pub listing : List A → List A
  listing table = sort_with before (select visible table)

  abbrev remaining : Option Place → List A → List A
  remaining p table = select (beyond p) (listing table)

  module _ (table : List A) (distinct : distinct_ids table ≡ true) where
    chosen-comparable : (q : A → Bool) → Ordered.all_comparable before (select q table) ≡ true
    chosen-comparable q =
        Ordered.all_comparable-select before q table (distinct-comparable table distinct)

    listing-in_order : Ordered.in_order before (listing table) ≡ true
    listing-in_order =
        Ordered.in_order-sort before trans asym (select visible table) (chosen-comparable visible)

    remaining-in_order : (p : Option Place) → Ordered.in_order before (remaining p table) ≡ true
    remaining-in_order p =
        Ordered.in_order-select before (beyond p) (listing table) listing-in_order

    -- The rows that the query of a page sorts.
    sorted-remaining :
        (p : Option Place)
        → sort_with before (select (is_after codec created_at id visible p) table)
          ≡ remaining p table
    sorted-remaining none = sym (Ordered.select-true (listing table))
    sorted-remaining (some p) = rw (Ordered.select-and visible (beyond (some p)) table) (
        sym (
          Ordered.select-sort before trans asym (beyond (some p)) (select visible table)
            (chosen-comparable visible)))

    -- The rows after a row of what remains are what it precedes in the whole listing.
    beyond-next :
        (p : Option Place) (l x : A) → beyond p l ≡ true → before l x ≡ true → beyond p x ≡ true
    beyond-next none l x h k = refl
    beyond-next (some p) l x h k =
        precedes_trans p (place codec created_at id visible l) (place codec created_at id visible x)
          h k

    next-drop :
        (p : Option Place) (n : ℕ) (l : A)
        → last_of (take n (remaining p table)) ≡ some l
        → remaining (some (place codec created_at id visible l)) table ≡ drop n (remaining p table)
    next-drop p n l e =
        sym (
          Ordered.select-select (beyond p) (before l)
            (λ x. beyond-next p l x (
              Ordered.last-all_rows (beyond p) n (remaining p table) l
                (Ordered.all_rows-chosen (beyond p) (listing table)) e))
            (listing table))
        ∙ Ordered.select_after-last before trans asym n (remaining p table) l (remaining-in_order p)
            e

    page_short :
        (limit : ℕ) (xs : List A)
        → length xs ≤ limit
        → paginate codec created_at id (take (limit + 1) xs) limit
          ≡ (record { items = xs; next_cursor = none })
    unfolding paginate
    page_short limit xs h = rw (take_all (limit + 1) xs (omega arith)) (ground arith)

    page_long :
        (limit : ℕ) (xs : List A) (l : A)
        → limit < length xs
        → last_of (take limit xs) ≡ some l
        → paginate codec created_at id (take (limit + 1) xs) limit ≡ (record {
          items = take limit xs;
          next_cursor = some (encode_cursor codec (created_at l) (codec.show_uuid (id l)));
        })
    unfolding paginate
    page_long limit xs l h e = ground (arith, length-take (limit + 1) xs, take-take-suc limit xs)

    page_lem :
        (limit : ℕ) (raw : Option Text) (p : Option Place)
        → place_of codec raw ≡ ok p
        → list_page codec created_at id visible raw limit table
          ≡ ok (paginate codec created_at id (take (limit + 1) (remaining p table)) limit)
    unfolding list_page page_at keyset_rows
    page_lem limit raw p e = rw e (rw (sorted-remaining p) refl)

    module _ (latest : ℕ) (readable : IsReadable codec latest)
        (dated : Ordered.all_rows (λ x. leb (created_at x) latest) table ≡ true) (limit : ℕ)
        (positive : 1 ≤ limit) where
      remaining-dated :
          (p : Option Place)
          → Ordered.all_rows (λ x. leb (created_at x) latest) (remaining p table) ≡ true
      remaining-dated p =
          Ordered.all_rows-select (λ x. leb (created_at x) latest) (beyond p) (listing table)
            (Ordered.all_rows-sort before (λ x. leb (created_at x) latest) (select visible table)
              (Ordered.all_rows-select (λ x. leb (created_at x) latest) visible table dated))

      cursor_read :
          (p : Option Place) (l : A)
          → last_of (take limit (remaining p table)) ≡ some l
          → place_of codec (some (encode_cursor codec (created_at l) (codec.show_uuid (id l))))
            ≡ ok (some (place codec created_at id visible l))
      cursor_read p l e =
          let early : leb (created_at l) latest ≡ true =
            Ordered.last-all_rows (λ x. leb (created_at x) latest) limit (remaining p table) l
              (remaining-dated p) e in
          place-cursor codec latest readable (created_at l) (id l) (ground arith)

      abbrev next_raw : A → Option Text
      next_raw l = some (encode_cursor codec (created_at l) (codec.show_uuid (id l)))

      walk_from :
          (requests : ℕ) (raw : Option Text) (p : Option Place)
          → place_of codec raw ≡ ok p
          → length (remaining p table) < requests
          → walk requests limit table raw ≡ ok (remaining p table)
      unfolding walk followed and_then
      walk_from zero raw p e h = absurd (omega arith)
      walk_from (suc requests) raw p e h =
          rw (page_lem limit raw p e) (elim (short_or_long (length (remaining p table)) limit) [
            | inl short ↦ rw (page_short limit (remaining p table) short) refl
            | inr long ↦
                let (l, last) =
                  Ordered.last-take-some limit (remaining p table) positive (omega (arith, long)) in
                let rest : walk requests limit table (next_raw l)
                    ≡ ok (drop limit (remaining p table)) =
                  walk_from requests (next_raw l) (some (place codec created_at id visible l))
                    (cursor_read p l last)
                    (rw (next-drop p limit l last)
                      (omega (arith, h, long, positive, length-drop limit (remaining p table))))
                  ∙ ap ok (next-drop p limit l last) in
                rw (page_long limit (remaining p table) l long last)
                  (rw rest (ap ok (take-append-drop limit (remaining p table))))
          ])

      -- A client that asks for the first page and then, with each page's cursor, for the next gets
      -- exactly the visible rows of the table in their order, none twice and none left out, and the last
      -- page comes before it has made more requests than there are visible rows and one: for every limit
      -- from 1, where no two rows have one id, no date is later than the codec reads, and the codec reads
      -- back what it has written.
      pub walk-listing :
          (requests : ℕ)
          → length (listing table) < requests
          → walk requests limit table none ≡ ok (listing table)
      unfolding place_of
      walk-listing requests h =
          let all : remaining none table ≡ listing table = Ordered.select-true (listing table) in
          walk_from requests none none refl (rw all h) ∙ rw all refl
