-- ===== src/SaleEvents/Drafting.antt =====
-- `createDraft` (sale-event.repository.ts) and `create`, `listPublished` and `detail` of
-- sale-event.service.ts. Names are left out; the ids that the database draws are arguments.
use flash_core.Common.{
  ℕ, suc, ◌-◌, Bool, false, Option, none, some, List, [], ◌∷◌, ◌++◌, ◌==◌, ◌&&◌, ◌||◌, leb, not,
  map, if◌then◌else◌,
}
use flash_core.Common.Table.{find, select, exists_row, count_where}
use flash_core.Common.Sequence.{take, sort_by}
use flash_core.Store.{
  Db, SaleEvent, SaleSku, Purchase, Action, Error, is_unique_violation, pure, throw, throw_if, gets,
  modify, transaction, catch, ◌>>=◌, ◌>>◌,
}
use flash_core.Inventory.{has_id}
use flash_core.Orders.{int4_max, has_sale_id, is_purchase_of}
use flash_core.SaleEvents.Publishing.{is_event, is_item_of}
use flash_core.SaleEvents.Status.{SaleEventStatus, sale_event_status}

pub record DraftItem : Type 0 where
  pub sku_id : ℕ
  pub sale_price_vnd : ℕ
  pub allocated_stock : ℕ
  pub per_user_limit : ℕ

pub record CreateSaleEventDto : Type 0 where
  pub slug : ℕ
  pub starts_at : ℕ
  pub ends_at : ℕ
  pub items : List DraftItem

abbrev pub has_event_slug : ℕ → SaleEvent → Bool
has_event_slug slug e = e.slug == slug

abbrev pub drafted_event : ℕ → CreateSaleEventDto → SaleEvent
drafted_event id dto = record {
  id = id;
  slug = dto.slug;
  starts_at = dto.starts_at;
  ends_at = dto.ends_at;
  is_published = false;
  is_settled = false;
}

-- `stock` is 0 until the event is published.
abbrev pub drafted_item : ℕ → ℕ → DraftItem → SaleSku
drafted_item id event item = record {
  id = id;
  sale_event_id = event;
  sku_id = item.sku_id;
  sale_price_vnd = item.sale_price_vnd;
  allocated_stock = item.allocated_stock;
  stock = 0;
  per_user_limit = item.per_user_limit;
}

-- The unique keys: the id, and `(sale_event_id, sku_id)`.
abbrev pub clashes : SaleSku → SaleSku → Bool
clashes new s = has_sale_id new.id s || (is_item_of new.sale_event_id s && s.sku_id == new.sku_id)

-- The INTEGER columns, the foreign key to the SKU, and the unique keys.
unfoldable pub insert_draft_item : SaleSku → Action Db (Unit {0})
insert_draft_item new = do
  throw_if (not (leb new.sale_price_vnd int4_max && leb new.allocated_stock int4_max))
      Error.query_failed
  taken ← gets λ db. exists_row (clashes new) db.sale_skus
  throw_if taken Error.unique_violation
  known ← gets λ db. exists_row (has_id new.sku_id) db.skus
  throw_if (not known) Error.query_failed
  modify λ db. record db { sale_skus = db.sale_skus ++ (new ∷ []) }

unfoldable pub insert_draft_items : (ℕ → ℕ) → ℕ → ℕ → List DraftItem → Action Db (Unit {0})
unfolding insert_draft_item
insert_draft_items ids n event [] = pure tt
insert_draft_items ids n event (item ∷ items) =
    insert_draft_item (drafted_item (ids n) event item)
    >> insert_draft_items ids (suc n) event items

unfoldable pub insert_draft : SaleEvent → Action Db (Unit {0})
insert_draft new = do
  taken ← gets λ db. exists_row (λ e. is_event new.id e || has_event_slug new.slug e) db.sale_events
  throw_if taken Error.unique_violation
  modify λ db. record db { sale_events = db.sale_events ++ (new ∷ []) }

-- A nested write is one transaction of Prisma's.
unfoldable pub create_draft : ℕ → (ℕ → ℕ) → CreateSaleEventDto → Action Db SaleEvent
unfolding insert_draft insert_draft_items
create_draft id ids dto = transaction do
  insert_draft (drafted_event id dto)
  insert_draft_items ids 0 id dto.items
  pure (drafted_event id dto)

abbrev pub renamed_error : Error → Error
renamed_error e = if is_unique_violation e then Error.sale_event_slug_taken else e

-- `create` of the service: every P2002 is taken for a slug in use.
unfoldable pub create : ℕ → (ℕ → ℕ) → CreateSaleEventDto → Action Db SaleEvent
unfolding create_draft
create id ids dto = catch (create_draft id ids dto) (λ e. throw (renamed_error e))

pub record Listed : Type 0 where
  pub id : ℕ
  pub slug : ℕ
  pub starts_at : ℕ
  pub ends_at : ℕ
  pub status : SaleEventStatus
  pub item_count : ℕ

unfoldable pub list_published : ℕ → ℕ → Action Db (List Listed)
unfolding sale_event_status
list_published now limit = gets λ db.
    map
      (λ e. record {
        id = e.id;
        slug = e.slug;
        starts_at = e.starts_at;
        ends_at = e.ends_at;
        status = sale_event_status now e;
        item_count = count_where (is_item_of e.id) db.sale_skus;
      })
      (take limit (sort_by (λ e. e.starts_at) (select (λ e. e.is_published) db.sale_events)))

-- `findPurchasedQuantity`.
abbrev pub quantity_of : Option Purchase → ℕ
quantity_of none = 0
quantity_of (some p) = p.quantity

unfoldable pub find_purchased_quantity : ℕ → ℕ → Action Db ℕ
find_purchased_quantity item user =
    gets λ db. quantity_of (find (is_purchase_of item user) db.purchases)

-- `Math.max(0, limit - purchased)`, which is the subtraction of natural numbers.
unfoldable pub remaining_for_user : SaleSku → ℕ → Action Db ℕ
unfolding find_purchased_quantity
remaining_for_user item user = do
  bought ← find_purchased_quantity item.id user
  pure (item.per_user_limit - bought)
