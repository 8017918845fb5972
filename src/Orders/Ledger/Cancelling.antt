-- ===== src/Orders/Ledger/Cancelling.antt =====
-- Cancelling an order and handing its units back, on the shelf that they came from.
use flash_core.Common.{
  ℕ, ◌+◌, ◌≡◌, refl, ◌∙◌, inl, inr, Bool, true, Option, none, some, List, [], ◌∷◌, ◌==◌,
  if◌then◌else◌, is_some, arith, Option-cases,
}
use flash_core.Common.Table.{find, find-update_where, find-holds}
use flash_core.Store.{Db, World, SaleSku, Action, Result, ok, err, Error, on_db, ◌>>◌}
use flash_core.Inventory.{Reserver, IsSound, Moves, give_stock}
use flash_core.Inventory.Stock.{stock_of, has_sku, stock_of-give_stock, has_sku-give_stock}
use flash_core.Orders.Quota.{has_sale_id, increment_sale_event_stock, release_user_quota}
use flash_core.Orders.Cancellation.{CancelledItem, release_to, release_stock, release_all}
use flash_core.Orders.Ledger.Held.{Shelf, is_on, held, returned_row, returned}

sale_units : Option SaleSku → ℕ
sale_units none = 0
sale_units (some s) = s.stock

-- The stock of a sale SKU.
unfoldable pub sale_stock_of : ℕ → Db → ℕ
unfolding sale_units
sale_stock_of s db = sale_units (find (has_sale_id s) db.sale_skus)

abbrev pub has_sale : ℕ → Db → Bool
has_sale s db = is_some (find (has_sale_id s) db.sale_skus)

unfoldable pub units_on : Shelf → Db → ℕ
units_on (Shelf.of_sku k) db = stock_of k db
units_on (Shelf.of_sale s) db = sale_stock_of s db

-- In stock, or held by live orders.
abbrev pub total_on : Shelf → Db → ℕ
total_on shelf db = units_on shelf db + held shelf db

-- The row of the SKU or of the sale SKU that an item came from is there.
abbrev pub HasShelf : ℕ → Option ℕ → Db → Type 0
HasShelf sku none db = has_sku sku db ≡ true
HasShelf sku (some s) db = has_sale s db ≡ true

abbrev pub HaveShelves : List CancelledItem → Db → Type 0
HaveShelves [] db = Unit
HaveShelves (r ∷ rows) db = HasShelf r.sku_id r.sale_event_sku_id db × HaveShelves rows db

-- What one release leaves behind: `gained` units more on `shelf`, the orders as they were, and
-- every shelf still there.
pub record Gives (shelf : Shelf) (gained : ℕ) (db db' : Db) : Type 0 where
  pub units : units_on shelf db' ≡ units_on shelf db + gained
  pub same_orders : db'.orders ≡ db.orders
  pub same_items : db'.order_items ≡ db.order_items
  pub same_skus : (j : ℕ) → has_sku j db' ≡ has_sku j db
  pub same_sales : (j : ℕ) → has_sale j db' ≡ has_sale j db

abbrev pub Released : Shelf → ℕ → Db → Result (Unit {0}) × World → Type 0
Released shelf gained db (ok a, w') = Gives shelf gained db w'.db
Released shelf gained db (err e, w') = e ≡ Error.query_failed

pub give_stock-Gives :
    (shelf : Shelf) (sku q : ℕ) (db : Db)
    → has_sku sku db ≡ true
    → Gives shelf (if is_on shelf sku none then q else 0) db (give_stock sku q db)
unfolding give_stock units_on sale_stock_of
give_stock-Gives (Shelf.of_sku k) sku q db there = record {
  units = ground (arith, stock_of-give_stock k sku q db there);
  same_orders = refl;
  same_items = refl;
  same_skus = λ j. has_sku-give_stock j sku q db;
  same_sales = λ j. refl;
}
give_stock-Gives (Shelf.of_sale k) sku q db there = record {
  units = omega arith;
  same_orders = refl;
  same_items = refl;
  same_skus = λ j. has_sku-give_stock j sku q db;
  same_sales = λ j. refl;
}

-- The stock of sale SKUs after `incrementSaleEventStock`.
sale_stock_of-increment :
    (k s q : ℕ) (db : Db)
    → has_sale s db ≡ true
    → sale_stock_of k (increment_sale_event_stock s q db).1
      ≡ sale_stock_of k db + (if s == k then q else 0)
unfolding sale_stock_of increment_sale_event_stock
sale_stock_of-increment k s q db there = elim (Option-cases (find (has_sale_id k) db.sale_skus)) [
  | inl e ↦ ground (
    arith,
    find-update_where (has_sale_id s) (has_sale_id k) (λ r. record r { stock = r.stock + q })
        (λ x. refl) db.sale_skus,
  )
  | inr (r, e) ↦ ground (
    arith,
    find-update_where (has_sale_id s) (has_sale_id k) (λ r. record r { stock = r.stock + q })
        (λ x. refl) db.sale_skus,
    find-holds (has_sale_id k) db.sale_skus r e,
  )
]

has_sale-increment :
    (k s q : ℕ) (db : Db) → has_sale k (increment_sale_event_stock s q db).1 ≡ has_sale k db
unfolding increment_sale_event_stock
has_sale-increment k s q db = ground (
  arith,
  find-update_where (has_sale_id s) (has_sale_id k) (λ r. record r { stock = r.stock + q })
      (λ x. refl) db.sale_skus,
)

pub increment-Gives :
    (shelf : Shelf) (sku s q : ℕ) (db : Db)
    → has_sale s db ≡ true
    → Gives shelf
        (if is_on shelf sku (some s) then q else 0)
        db
        (increment_sale_event_stock s q db).1
unfolding units_on stock_of
increment-Gives (Shelf.of_sku k) sku s q db there =
    unfold increment_sale_event_stock in
    record {
      units = omega arith;
      same_orders = refl;
      same_items = refl;
      same_skus = λ j. refl;
      same_sales = λ j. has_sale-increment j s q db;
    }
increment-Gives (Shelf.of_sale k) sku s q db there =
    unfold increment_sale_event_stock in
    record {
      units = sale_stock_of-increment k s q db there;
      same_orders = refl;
      same_items = refl;
      same_skus = λ j. refl;
      same_sales = λ j. has_sale-increment j s q db;
    }

-- `releaseUserQuota` changes the purchases alone, or is refused by the CHECK.
abbrev pub QuotaOnly : Db → Result (Unit {0}) × Db → Type 0
QuotaOnly db (ok a, d) = d ≡ record db { purchases = d.purchases }
QuotaOnly db (err e, d) = (e ≡ Error.query_failed) × (d ≡ db)

pub release_user_quota-QuotaOnly :
    (s user q : ℕ) (db : Db) → QuotaOnly db (release_user_quota s user q db)
unfolding release_user_quota
release_user_quota-QuotaOnly s user q db = ground arith

-- The purchases are no shelf.
purchases-Gives :
    (shelf : Shelf) (gained : ℕ) (db d d' : Db)
    → Gives shelf gained db d
    → d' ≡ record d { purchases = d'.purchases }
    → Gives shelf gained db d'
unfolding units_on stock_of sale_stock_of
purchases-Gives (Shelf.of_sku k) gained db d d' g e = record {
  units = rw e g.units;
  same_orders = rw e g.same_orders;
  same_items = rw e g.same_items;
  same_skus = λ j. rw e (g.same_skus j);
  same_sales = λ j. rw e (g.same_sales j);
}
purchases-Gives (Shelf.of_sale k) gained db d d' g e = record {
  units = rw e g.units;
  same_orders = rw e g.same_orders;
  same_items = rw e g.same_items;
  same_skus = λ j. rw e (g.same_skus j);
  same_sales = λ j. rw e (g.same_sales j);
}

quota_end-Released :
    (shelf : Shelf) (gained : ℕ) (db : Db) (w : World) (res : Result (Unit {0}) × Db)
    → Gives shelf gained db w.db
    → QuotaOnly w.db res
    → Released shelf gained db (on_db (λ _. res) w)
quota_end-Released shelf gained db w (ok a, d) g e = purchases-Gives shelf gained db w.db d g e
quota_end-Released shelf gained db w (err e, d) g q = q.0

-- A release by a sound strategy.
sku_end-Released :
    (shelf : Shelf) (sku q : ℕ) (w : World) (res : Result (Unit {0}) × World)
    → has_sku sku w.db ≡ true
    → res.0 ≡ ok tt
    → Moves w (give_stock sku q w.db) res.1
    → Released shelf (if is_on shelf sku none then q else 0) w.db res
sku_end-Released shelf sku q w (ok a, v) there done moved =
    rw moved (give_stock-Gives shelf sku q w.db there)
sku_end-Released shelf sku q w (err e, v) there done moved = cc

release_to-Released :
    (shelf : Shelf) (reserver : Reserver) (item : CancelledItem) (origin : Option ℕ) (w : World)
    → IsSound reserver
    → HasShelf item.sku_id origin w.db
    → Released shelf
        (if is_on shelf item.sku_id origin then item.quantity else 0)
        w.db
        (release_to reserver item origin w)
unfolding release_to
release_to-Released shelf reserver item none w sound there =
    sku_end-Released shelf item.sku_id item.quantity w
      (reserver.release item.sku_id item.quantity w) there
      (sound.release_gives item.sku_id item.quantity w).0
      (sound.release_gives item.sku_id item.quantity w).1
release_to-Released shelf reserver item (some s) w sound there =
    quota_end-Released shelf _ w.db (on_db (increment_sale_event_stock s item.quantity) w).1
      (release_user_quota s item.user_id item.quantity _)
      (increment-Gives shelf item.sku_id s item.quantity w.db there)
      (release_user_quota-QuotaOnly s item.user_id item.quantity _)

module _ (shelf : Shelf) (reserver : Reserver) (sound : IsSound reserver) where
  HaveShelves-kept :
      (rows : List CancelledItem) (db d : Db) (gained : ℕ)
      → Gives shelf gained db d
      → HaveShelves rows db
      → HaveShelves rows d
  HaveShelves-kept [] db d gained g h = tt
  HaveShelves-kept (r ∷ rows) db d gained g h =
      (kept r.sale_event_sku_id h.0, HaveShelves-kept rows db d gained g h.1)
    where
      kept : (origin : Option ℕ) → HasShelf r.sku_id origin db → HasShelf r.sku_id origin d
      kept none there = g.same_skus r.sku_id ∙ there
      kept (some s) there = g.same_sales s ∙ there

  Gives-trans :
      (a b : ℕ) (d d' d'' : Db)
      → Gives shelf a d d'
      → Gives shelf b d' d''
      → Gives shelf (a + b) d d''
  Gives-trans a b d d' d'' g h = record {
    units = omega (arith, g.units, h.units);
    same_orders = h.same_orders ∙ g.same_orders;
    same_items = h.same_items ∙ g.same_items;
    same_skus = λ j. h.same_skus j ∙ g.same_skus j;
    same_sales = λ j. h.same_sales j ∙ g.same_sales j;
  }

  Gives-none : (d : Db) → Gives shelf 0 d d
  Gives-none d = record {
    units = omega arith;
    same_orders = refl;
    same_items = refl;
    same_skus = λ j. refl;
    same_sales = λ j. refl;
  }

  then-Released :
      (rows : List CancelledItem) (a b : ℕ) (db : Db) (res : Result (Unit {0}) × World)
      (rest : Action World (Unit {0})) (start : World)
      → Released shelf a db res
      → HaveShelves rows db
      → ((v : World) → HaveShelves rows v.db → Released shelf b v.db (rest v))
      → Released shelf (a + b) db (◌>>◌ {S = World} (λ _. res) rest start)
  then-Released rows a b db (ok x, v) rest start g h go =
      last (rest v) (go v (HaveShelves-kept rows db v.db a g h))
    where
      last :
          (end : Result (Unit {0}) × World)
          → Released shelf b v.db end
          → Released shelf (a + b) db end
      last (ok y, u) g' = Gives-trans a b db v.db u.db g g'
      last (err e, u) g' = g'
  then-Released rows a b db (err e, v) rest start g h go = g

  -- Every row handed back gains its shelf exactly its units.
  pub release_all-Released :
      (rows : List CancelledItem) (w : World)
      → HaveShelves rows w.db
      → Released shelf (returned shelf rows) w.db (release_all reserver rows w)
  unfolding release_all release_stock
  release_all-Released [] w h = Gives-none w.db
  release_all-Released (r ∷ rows) w h =
      then-Released rows (returned_row shelf r) (returned shelf rows) w.db
        (release_stock reserver r w) (release_all reserver rows) w
        (release_to-Released shelf reserver r r.sale_event_sku_id w sound h.0) h.1
        (release_all-Released rows)
