-- ===== src/Tests/Paging.antt =====
-- Lists that are read page by page.
use flash_core.Common.{ℕ, ◌+◌, ◌-◌, ◌≡◌, refl, Option, none, some, List, [], ◌∷◌, arith}
use flash_core.Store.{Order, OrderStatus, ok, err, Error}
use flash_core.Pages.{Text, Codec, decode_cursor, encode_cursor, list_page}
use flash_core.Pages.RoundTrip.{decode-encode}
use flash_core.Pages.Walk.{IsReadable, walk, listing, walk-listing}
use flash_core.Orders.History.{is_order_by}

one_number : Text → Option ℕ
one_number [] = none
one_number (n ∷ []) = some n
one_number (n ∷ m ∷ s) = none

unshifted : Text → Option ℕ
unshifted [] = none
unshifted (n ∷ []) = some (n - 100)
unshifted (n ∷ m ∷ s) = none

-- Base64url turns no letter, a date is one, and an id is one past 100.
abbrev plain : Codec
plain = record {
  to_base64url = λ t. t;
  of_base64url = λ t. t;
  iso_date = λ d. d ∷ [];
  parse_date = one_number;
  show_uuid = λ i. (i + 100) ∷ [];
  read_uuid = unshifted;
}

plain-IsReadable : IsReadable plain 5000
unfolding one_number unshifted
plain-IsReadable = record {
  base64url = λ t. refl;
  date = λ d h. refl;
  uuid = λ i. ground arith;
  uuid_plain = λ i. ground arith;
  uuid_some = λ i. omega arith;
}

abbrev order_of : ℕ → ℕ → ℕ → Order
order_of id user created_at = record {
  id = id;
  user_id = user;
  status = OrderStatus.pending;
  total_vnd = 1000;
  idempotency_key = id;
  expires_at = created_at + 900;
  created_at = created_at;
  payment_intent_id = none;
}

abbrev history : List Order
history =
    order_of 1 7 300
    ∷ order_of 2 7 400
    ∷ order_of 3 8 400
    ∷ order_of 4 7 400
    ∷ order_of 5 7 350
    ∷ []

decode-encode_example :
    decode_cursor plain (encode_cursor plain 400 (102 ∷ []))
    ≡ ok (record { created_at = 400; id = 102 ∷ [] })
unfolding one_number
decode-encode_example = decode-encode plain 400 102 [] (λ t. refl) refl refl

-- Two requests of at most two rows.
walk-listing_example :
    walk plain (λ o. o.created_at) (λ o. o.id) (is_order_by 7) 5 2 history none
    ≡ ok (listing plain (λ o. o.created_at) (λ o. o.id) (is_order_by 7) history)
walk-listing_example =
    walk-listing plain (λ o. o.created_at) (λ o. o.id) (is_order_by 7) history refl 5000
      plain-IsReadable refl 2 (omega arith) 5 (omega arith)

listing_run :
    listing plain (λ o. o.created_at) (λ o. o.id) (is_order_by 7) history
    ≡ order_of 4 7 400 ∷ order_of 2 7 400 ∷ order_of 5 7 350 ∷ order_of 1 7 300 ∷ []
listing_run = refl

stray_cursor_run :
    list_page plain
      (λ o. o.created_at)
      (λ o. o.id)
      (is_order_by 7)
      (some (400 ∷ b'_' ∷ 1 ∷ 2 ∷ []))
      2
      history
    ≡ err Error.query_failed
unfolding list_page one_number unshifted
stray_cursor_run = refl
