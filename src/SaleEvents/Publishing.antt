-- ===== src/SaleEvents/Publishing.antt =====
-- `publish` of sale-event.repository.ts and of sale-event.service.ts.
use flash_core.Common.{
  ℕ, Bool, true, Option, none, some, List, [], ◌∷◌, ◌==◌, ◌&&◌, leb, not, if◌then◌else◌,
}
use flash_core.Common.Table.{find, select, update_where, count_where}
use flash_core.Store.{
  Db, Sku, SaleEvent, SaleSku, Action, Error, pure, throw, throw_if, gets, modify, transaction,
  ◌>>=◌, ◌>>◌,
}
use flash_core.Inventory.{has_id, take_units}
use flash_core.Orders.{has_sale_id}

-- `null` is an answer of its own.
pub data Publication : Type 0 where
  published already_published no_event : Publication

abbrev pub is_event : ℕ → SaleEvent → Bool
is_event id e = e.id == id

abbrev pub is_item_of : ℕ → SaleSku → Bool
is_item_of event s = s.sale_event_id == event

-- The WHERE clause of the UPDATE that cuts the units out of the SKU.
abbrev pub can_allocate : ℕ → ℕ → Sku → Bool
can_allocate sku q r = has_id sku r && (r.is_active && leb q r.stock)

abbrev pub stocked : SaleSku → SaleSku
stocked s = record s { stock = s.allocated_stock }

-- One round of the loop. `AllocationFailed` is what the service turns into this error.
unfoldable pub publish_item : SaleSku → Action Db (Unit {0})
publish_item item = do
  taken ← gets λ db. count_where (can_allocate item.sku_id item.allocated_stock) db.skus
  modify λ db. record db {
    skus =
        update_where (can_allocate item.sku_id item.allocated_stock)
          (take_units item.allocated_stock) db.skus;
  }
  throw_if (taken == 0) Error.not_enough_stock_to_allocate
  modify λ db. record db { sale_skus = update_where (has_sale_id item.id) stocked db.sale_skus }

unfoldable pub publish_items : List SaleSku → Action Db (Unit {0})
unfolding publish_item
publish_items [] = pure tt
publish_items (item ∷ items) = publish_item item >> publish_items items

-- The `UPDATE` of the flag changed `flipped` rows.
unfoldable pub publish_flipped : List SaleSku → ℕ → Action Db Publication
unfolding publish_items
publish_flipped items flipped =
    if flipped == 0
    then pure Publication.already_published
    else (publish_items items >> pure Publication.published)

unfoldable pub publish_found : ℕ → List SaleSku → Option SaleEvent → Action Db Publication
unfolding publish_flipped
publish_found id items none = pure Publication.no_event
publish_found id items (some e) = do
  flipped ← gets λ db. count_where (λ e. is_event id e && not e.is_published) db.sale_events
  modify λ db. record db {
    sale_events =
        update_where (λ e. is_event id e && not e.is_published)
          (λ e. record e { is_published = true }) db.sale_events;
  }
  publish_flipped items flipped

unfoldable pub publish_in_transaction : ℕ → Action Db Publication
unfolding publish_found
publish_in_transaction id = transaction do
  event ← gets λ db. find (is_event id) db.sale_events
  items ← gets λ db. select (is_item_of id) db.sale_skus
  publish_found id items event

unfoldable pub published_or_error : Publication → Action Db (Unit {0})
published_or_error Publication.published = pure tt
published_or_error Publication.already_published = throw Error.sale_event_already_published
published_or_error Publication.no_event = throw Error.sale_event_not_found

-- `SaleEventService.publish`; the event that it reads back is left out.
unfoldable pub publish : ℕ → Action Db (Unit {0})
unfolding publish_in_transaction published_or_error
publish id = publish_in_transaction id >>= published_or_error
