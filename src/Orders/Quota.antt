-- ===== src/Orders/Quota.antt =====
-- The statements of order.repository.ts on a sale event: the user's quota and the event's stock.
-- `now` is PostgreSQL's clock at the statement.
use mathlib.Core.Option
use flash_core.Common.{
  ℕ, ◌+◌, ◌-◌, Bool, true, false, Option, none, some, [], ◌∷◌, ◌++◌, ◌&&◌, leb, ltb, ◌==◌,
  if◌then◌else◌,
}
use flash_core.Common.Table.{find, exists_row, update_where}
use flash_core.Store.{
  Db, SaleEvent, SaleSku, Purchase, Action, Error, pure, throw_if, gets, modify, ◌>>=◌, ◌>>◌,
}

abbrev pub has_sale_id : ℕ → SaleSku → Bool
has_sale_id k s = s.id == k

abbrev pub is_purchase_of : ℕ → ℕ → Purchase → Bool
is_purchase_of k user p = p.sale_sku_id == k && p.user_id == user

-- `<= (SELECT per_user_limit ...)`: no row gives NULL, which is not true.
abbrev within_limit : ℕ → Option SaleSku → Bool
within_limit n none = false
within_limit n (some s) = leb n s.per_user_limit

-- `DO UPDATE`, where its WHERE clause holds.
raise_purchase : ℕ → ℕ → ℕ → Bool → Action Db Bool
raise_purchase k user q false = pure false
raise_purchase k user q true = do
  modify λ db. record db {
    purchases =
        update_where (is_purchase_of k user) (λ r. record r { quantity = r.quantity + q })
          db.purchases;
  }
  pure true

-- The rows of `INSERT ... SELECT ... ON CONFLICT DO UPDATE ... WHERE ... RETURNING`: whether there
-- is one.
claim_on : ℕ → ℕ → ℕ → Option SaleSku → Option Purchase → Action Db Bool
unfolding raise_purchase
claim_on k user q none old = pure false
claim_on k user q (some s) none = do
  modify λ db. record db {
    purchases = db.purchases ++ (record { sale_sku_id = k; user_id = user; quantity = q } ∷ []);
  }
  pure true
claim_on k user q (some s) (some p) = do
  fits ← gets λ db. within_limit (p.quantity + q) (find (has_sale_id k) db.sale_skus)
  raise_purchase k user q fits

unfoldable pub claim_user_quota : ℕ → ℕ → ℕ → Action Db Bool
unfolding claim_on
claim_user_quota k user q db =
    claim_on k user q (find (λ s. has_sale_id k s && leb q s.per_user_limit) db.sale_skus)
      (find (is_purchase_of k user) db.purchases) db

-- The CHECK `quantity >= 0` of `sale_event_purchases` refuses to go below 0.
unfoldable pub release_user_quota : ℕ → ℕ → ℕ → Action Db (Unit {0})
release_user_quota k user q = do
  short ← gets λ db. exists_row (λ p. is_purchase_of k user p && ltb p.quantity q) db.purchases
  throw_if short Error.query_failed
  modify λ db. record db {
    purchases =
        update_where (is_purchase_of k user) (λ p. record p { quantity = p.quantity - q })
          db.purchases;
  }

-- `e.is_published AND now() >= e.starts_at AND now() <= e.ends_at`.
abbrev pub is_open : ℕ → SaleEvent → Bool
is_open now e = e.is_published && (leb e.starts_at now && leb now e.ends_at)

-- The event that a sale SKU is joined with.
abbrev pub event_of : SaleSku → Db → Option SaleEvent
event_of s db = find (λ e. e.id == s.sale_event_id) db.sale_events

abbrev pub open_event : ℕ → Option SaleEvent → Bool
open_event now none = false
open_event now (some e) = is_open now e

abbrev pub sells : ℕ → ℕ → ℕ → Db → SaleSku → Bool
sells now k q db s = has_sale_id k s && (leb q s.stock && open_event now (event_of s db))

-- `UPDATE ... FROM sale_events ... RETURNING sale_price_vnd, sku_id`, first row.
unfoldable pub decrement_sale_event_stock : ℕ → ℕ → ℕ → Action Db (Option (ℕ × ℕ))
decrement_sale_event_stock now k q = do
  row ← gets λ db. find (sells now k q db) db.sale_skus
  modify λ db. record db {
    sale_skus =
        update_where (sells now k q db) (λ s. record s { stock = s.stock - q }) db.sale_skus;
  }
  pure (Option.map (λ s. (s.sale_price_vnd, s.sku_id)) row)

unfoldable pub increment_sale_event_stock : ℕ → ℕ → Action Db (Unit {0})
increment_sale_event_stock k q = modify λ db. record db {
  sale_skus = update_where (has_sale_id k) (λ s. record s { stock = s.stock + q }) db.sale_skus;
}

pub data Diagnosis : Type 0 where
  not_found not_open out_of_stock : Diagnosis

abbrev diagnose_event : ℕ → Option SaleEvent → Diagnosis
diagnose_event now none = Diagnosis.not_found
diagnose_event now (some e) = if is_open now e then Diagnosis.out_of_stock else Diagnosis.not_open

abbrev diagnose : ℕ → Db → Option SaleSku → Diagnosis
diagnose now db none = Diagnosis.not_found
diagnose now db (some s) = diagnose_event now (event_of s db)

unfoldable pub diagnose_sale_event_sku : ℕ → ℕ → Action Db Diagnosis
diagnose_sale_event_sku now k = gets λ db. diagnose now db (find (has_sale_id k) db.sale_skus)
