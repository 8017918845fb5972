-- ===== src/SaleEvents/Returning.antt =====
-- Closing an event gives back to the SKUs exactly what the event still has.
use flash_core.Common.{
  ℕ, zero, suc, ◌+◌, ◌≤◌, ◌≡◌, refl, sym, ap, ◌∙◌, Bool, true, false, some, List, [], ◌∷◌, map,
  ◌==◌, ◌&&◌, if◌then◌else◌, arith,
}
use flash_core.Common.Table.{
  find, select, update_where, count_where, sum-update_one, count-update_where,
}
use flash_core.Common.Listing.{Listed, select-Listed, Listed-update}
use flash_core.Store.{Db, SaleSku, Result, ok, err, pure, transaction, ◌>>◌}
use flash_core.Inventory.{give_stock}
use flash_core.Inventory.Stock.{stock_of, has_sku, stock_of-give_stock, has_sku-give_stock}
use flash_core.SaleEvents.Closing.{
  closable, is_leftover, emptied, returned_row, return_leftover, return_leftovers, settle_closed,
  settle_ended,
}
use flash_core.SaleEvents.Allocation.{sale_units, available}

-- `@@unique([saleEventId, skuId])`.
abbrev same_item : SaleSku → SaleSku → Bool
same_item x s = s.sale_event_id == x.sale_event_id && s.sku_id == x.sku_id

abbrev pub HasItemKeys : Db → Type 0
HasItemKeys db = (s : SaleSku) → count_where (same_item s) db.sale_skus ≤ 1

-- The foreign key of the items to the SKUs.
abbrev pub ItemsHaveSkus : List SaleSku → Db → Type 0
ItemsHaveSkus [] db = Unit
ItemsHaveSkus (s ∷ items) db = (has_sku s.sku_id db ≡ true) × ItemsHaveSkus items db

same_item_refl : (x : SaleSku) → same_item x x ≡ true
same_item_refl x = ground arith

same_item_sym : (x y : SaleSku) → same_item x y ≡ same_item y x
same_item_sym x y = ground arith

abbrev given_back : SaleSku → Db → Db
given_back row db = record (give_stock row.sku_id row.stock db) {
  sale_skus = update_where (same_item row) emptied db.sale_skus;
}

return_leftover_lem :
    (id : ℕ) (row : SaleSku) (db : Db)
    → row.sale_event_id ≡ id
    → return_leftover id row db ≡ (ok tt, given_back row db)
unfolding return_leftover give_stock
return_leftover_lem id row db e = rw (sym e) refl

stock_of-given_back :
    (k : ℕ) (row : SaleSku) (db : Db)
    → has_sku row.sku_id db ≡ true
    → stock_of k (given_back row db)
      ≡ (if k == row.sku_id then stock_of k db + row.stock else stock_of k db)
stock_of-given_back k row db there =
    unfold stock_of in stock_of-give_stock k row.sku_id row.stock db there

given_back-available :
    (k : ℕ) (row : SaleSku) (db : Db)
    → HasItemKeys db
    → has_sku row.sku_id db ≡ true
    → find (same_item row) db.sale_skus ≡ some row
    → available k (given_back row db) ≡ available k db
given_back-available k row db keys there found = ground (
  arith,
  stock_of-given_back k row db there,
  sum-update_one (same_item row) emptied (sale_units k) db.sale_skus row (keys row) found,
)

given_back-HasItemKeys :
    (row : SaleSku) (db : Db) → HasItemKeys db → HasItemKeys (given_back row db)
given_back-HasItemKeys row db keys s =
    rw (count-update_where (same_item row) (same_item s) emptied (λ x. refl) db.sale_skus) (keys s)

given_back-ItemsHaveSkus :
    (row : SaleSku) (items : List SaleSku) (db : Db)
    → ItemsHaveSkus items db
    → ItemsHaveSkus items (given_back row db)
given_back-ItemsHaveSkus row [] db h = tt
given_back-ItemsHaveSkus row (s ∷ items) db h = (
  has_sku-give_stock s.sku_id row.sku_id row.stock db ∙ h.0,
  given_back-ItemsHaveSkus row items db h.1,
)

-- What the loop leaves: the total, and no throw.
abbrev Ends : ℕ → ℕ → Result (Unit {0}) × Db → Type 0
Ends k t (ok a, d) = available k d ≡ t
Ends k t (err e, d) = ⊥

pub not_zero : (n : ℕ) → (suc n == 0) ≡ false
not_zero n = ground arith

module _ (k id : ℕ) where
  round-Ends :
      (rows : List SaleSku) (db d : Db) (t : ℕ) (res : Result (Unit {0}) × Db)
      → res ≡ (ok tt, d)
      → Ends k t (return_leftovers id rows d)
      → Ends k t (◌>>◌ (λ _. res) (return_leftovers id rows) db)
  round-Ends rows db d t (ok a, d') e h = rw (ap (λ (r : Result (Unit {0}) × Db). r.1) e) h
  round-Ends rows db d t (err x, d') e h = absurd (cc)

  return_leftovers-Ends :
      (rows : List SaleSku) (db : Db) (t : ℕ)
      → HasItemKeys db
      → ItemsHaveSkus rows db
      → Listed same_item (is_leftover id) rows db.sale_skus
      → available k db ≡ t
      → Ends k t (return_leftovers id rows db)
  unfolding return_leftovers
  return_leftovers-Ends [] db t keys there l e = e
  return_leftovers-Ends (row ∷ rows) db t keys there l e =
      round-Ends rows db (given_back row db) t (return_leftover id row db)
        (return_leftover_lem id row db (ground (arith, l.0)))
        (return_leftovers-Ends rows (given_back row db) t (given_back-HasItemKeys row db keys)
          (given_back-ItemsHaveSkus row rows db there.1)
          (Listed-update same_item (is_leftover id) emptied row rows db.sale_skus (λ y z. refl)
            same_item_sym l.1.1.0 l.1.1.1)
          (given_back-available k row db keys there.0 l.1.0 ∙ e))

  select-HaveSkus :
      (items : List SaleSku) (db : Db)
      → ItemsHaveSkus items db
      → ItemsHaveSkus (select (is_leftover id) items) db
  select-HaveSkus [] db h = tt
  select-HaveSkus (s ∷ items) db h = ground (arith, select-HaveSkus items db h.1)

  closed_rows-available :
      (rows : List SaleSku) (db : Db) (t : ℕ) (res : Result (Unit {0}) × Db)
      → Ends k t res
      → available k
          (transaction (λ d. ◌>>◌ (λ _. res) (pure (some (map returned_row rows))) d) db).1
        ≡ t
  closed_rows-available rows db t (ok a, d) h = h
  closed_rows-available rows db t (err e, d) h = absurd h

  abbrev pub closed_db : ℕ → Db → Db
  closed_db now db = record db {
    sale_events =
        update_where (closable now id) (λ e. record e { is_settled = true }) db.sale_events;
  }

  closed-ItemsHaveSkus :
      (items : List SaleSku) (now : ℕ) (db : Db)
      → ItemsHaveSkus items db
      → ItemsHaveSkus items (closed_db now db)
  closed-ItemsHaveSkus [] now db h = tt
  closed-ItemsHaveSkus (s ∷ items) now db h = (h.0, closed-ItemsHaveSkus items now db h.1)

  settle_closed-available :
      (closed now : ℕ) (db : Db)
      → HasItemKeys db
      → ItemsHaveSkus db.sale_skus db
      → available k (transaction (λ _. settle_closed id closed (closed_db now db)) db).1
        ≡ available k db
  unfolding settle_closed stock_of
  settle_closed-available zero now db keys there = refl
  settle_closed-available (suc n) now db keys there = rw (not_zero n) (
      closed_rows-available (select (is_leftover id) db.sale_skus) db (available k db)
        (return_leftovers id (select (is_leftover id) db.sale_skus) (closed_db now db))
        (return_leftovers-Ends (select (is_leftover id) db.sale_skus) (closed_db now db)
          (available k db) keys
          (select-HaveSkus db.sale_skus (closed_db now db)
            (closed-ItemsHaveSkus db.sale_skus now db there))
          (select-Listed same_item (is_leftover id) same_item_refl same_item_sym db.sale_skus keys)
          refl))

-- Where an event has one item for a SKU, and every item's SKU has a row, closing an event keeps
-- the units of every SKU that can be bought, whether it is closed or not: what the event has left
-- goes to the SKUs' stock.
pub settle_ended-available :
    (k now id : ℕ) (db : Db)
    → HasItemKeys db
    → ItemsHaveSkus db.sale_skus db
    → available k (settle_ended now id db).1 ≡ available k db
unfolding settle_ended
settle_ended-available k now id db keys there =
    settle_closed-available k id (count_where (closable now id) db.sale_events) now db keys there
