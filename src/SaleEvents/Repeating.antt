-- ===== src/SaleEvents/Repeating.antt =====
-- What `create` of sale-event.service.ts does to the stock, and with an item given twice.
use mathlib.Core.Path.{subst}
use flash_core.Common.{
  ℕ, ◌≡◌, refl, sym, Bool, true, false, List, [], ◌∷◌, ◌++◌, ◌&&◌, ◌||◌, ==_refl, leb, arith,
}
use flash_core.Common.Table.{exists_row}
use flash_core.Store.{
  Db, SaleEvent, SaleSku, Action, ok, err, Error, transaction, catch, throw, pure, ◌>>◌,
}
use flash_core.Inventory.{has_id}
use flash_core.Orders.{int4_max}
use flash_core.SaleEvents.Publishing.{is_event}
use flash_core.SaleEvents.Drafting.{
  DraftItem, CreateSaleEventDto, drafted_event, drafted_item, clashes, has_event_slug,
  insert_draft_item, insert_draft_items, insert_draft, create_draft, renamed_error, create,
}

exists-last :
    (q : SaleSku → Bool) (xs : List SaleSku) (x : SaleSku)
    → q x ≡ true
    → exists_row q (xs ++ (x ∷ [])) ≡ true
exists-last q [] x h = ground arith
exists-last q (y ∷ xs) x h = ground (arith, exists-last q xs x)

-- The amounts fit their columns, and the SKU exists.
abbrev pub IsInsertable : DraftItem → Db → Type 0
IsInsertable item db =
    ((leb item.sale_price_vnd int4_max && leb item.allocated_stock int4_max) ≡ true)
    × (exists_row (has_id item.sku_id) db.skus ≡ true)

module _ (id : ℕ) (ids : ℕ → ℕ) (a b : DraftItem) (same : a.sku_id ≡ b.sku_id) where
  abbrev with_first : Db → Db
  with_first db = record db { sale_skus = db.sale_skus ++ (drafted_item (ids 0) id a ∷ []) }

  first_inserted :
      (db : Db)
      → IsInsertable a db
      → exists_row (clashes (drafted_item (ids 0) id a)) db.sale_skus ≡ false
      → insert_draft_item (drafted_item (ids 0) id a) db ≡ (ok tt, with_first db)
  unfolding insert_draft_item
  first_inserted db able free = ground (arith, able.0, able.1)

  second_clashes :
      (db : Db) → exists_row (clashes (drafted_item (ids 1) id b)) (with_first db).sale_skus ≡ true
  second_clashes db =
      exists-last (clashes (drafted_item (ids 1) id b)) db.sale_skus (drafted_item (ids 0) id a)
        (ground (arith, ==_refl id, same, ==_refl a.sku_id))

  second_refused :
      (db : Db)
      → IsInsertable b db
      → insert_draft_item (drafted_item (ids 1) id b) (with_first db)
        ≡ (err Error.unique_violation, with_first db)
  unfolding insert_draft_item
  second_refused db able = ground (arith, able.0, second_clashes db)

  items_refused :
      (rest : List DraftItem) (db : Db)
      → IsInsertable a db
      → IsInsertable b db
      → exists_row (clashes (drafted_item (ids 0) id a)) db.sale_skus ≡ false
      → insert_draft_items ids 0 id (a ∷ b ∷ rest) db ≡ (err Error.unique_violation, with_first db)
  unfolding insert_draft_items
  items_refused rest db able_a able_b free =
      subst
        (λ r.
          ◌>>◌ (λ s. r) (insert_draft_items ids 1 id (b ∷ rest)) db
          ≡ (err Error.unique_violation, with_first db))
        (sym (first_inserted db able_a free))
        (subst
          (λ r.
            ◌>>◌ (λ s. r) (insert_draft_items ids 2 id rest) (with_first db)
            ≡ (err Error.unique_violation, with_first db))
          (sym (second_refused db able_b)) refl)

  event_inserted :
      (new : SaleEvent) (db : Db)
      → exists_row (λ e. is_event new.id e || has_event_slug new.slug e) db.sale_events ≡ false
      → insert_draft new db ≡ (ok tt, record db { sale_events = db.sale_events ++ (new ∷ []) })
  unfolding insert_draft
  event_inserted new db free = ground arith

  -- An event whose first two items name the same SKU is refused as if its slug were in use,
  -- although it is not, and nothing is written: where the event's id and slug and the first item's
  -- row are new, the SKU exists, and the amounts fit their columns.
  pub create_repeated :
      (dto : CreateSaleEventDto) (rest : List DraftItem) (db : Db)
      → exists_row (λ e. is_event id e || has_event_slug dto.slug e) db.sale_events ≡ false
      → IsInsertable a db
      → IsInsertable b db
      → exists_row (clashes (drafted_item (ids 0) id a)) db.sale_skus ≡ false
      → create id ids (record dto { items = a ∷ b ∷ rest }) db
        ≡ (err Error.sale_event_slug_taken, db)
  unfolding create create_draft
  create_repeated dto rest db new_event able_a able_b free =
      let event : SaleEvent = drafted_event id dto in
      let db1 : Db = record db { sale_events = db.sale_events ++ (event ∷ []) } in
      let items : Action Db SaleEvent =
        ◌>>◌ (insert_draft_items ids 0 id (a ∷ b ∷ rest)) (pure event) in
      subst
        (λ r.
          catch (transaction (λ s. ◌>>◌ (λ t. r) items s)) (λ e. throw (renamed_error e)) db
          ≡ (err Error.sale_event_slug_taken, db))
        (sym (event_inserted event db new_event))
        (subst
          (λ r.
            catch (transaction (λ s. ◌>>◌ (λ t. r) (pure event) s)) (λ e. throw (renamed_error e))
              db
            ≡ (err Error.sale_event_slug_taken, db))
          (sym (items_refused rest db1 able_a able_b free)) refl)
