-- ===== src/Orders/Ledger/Outcome.antt =====
-- What `cancelPendingOrder` does to the table `orders`, and that of several cancellations of an
-- order only one takes effect.
use flash_core.Common.{
  ℕ, ◌≤◌, ◌≡◌, refl, Bool, true, Option, none, some, List, ◌==◌, ◌&&◌, is_some, leb, arith, ==_refl,
}
use flash_core.Common.Table.{
  find, find-holds, select, update_where, count_where, keep, find-and, find-none_count,
  absent_by_count, update_where_absent, count-update_where,
}
use flash_core.Store.{Db, Order, is_pending, Result, ok, err}
use flash_core.Orders.Creation.{has_order_id}
use flash_core.Orders.Cancellation.{
  CancelScope, CancelledItem, cancellable, cancel_row, join_items, cancel_pending_order,
}
use flash_core.Orders.Ledger.Held.{find-cancelled}

-- The primary key of `orders`.
abbrev pub HasOrderKeys : Db → Type 0
HasOrderKeys db = (j : ℕ) → count_where (has_order_id j) db.orders ≤ 1

-- The part of the WHERE clause besides the id.
abbrev pub in_scope : ℕ → CancelScope → Order → Bool
in_scope now CancelScope.expired o = is_pending o.status && leb o.expires_at now
in_scope now (CancelScope.by_user user) o = is_pending o.status && o.user_id == user

abbrev pub cancelled_db : ℕ → ℕ → CancelScope → Db → Db
cancelled_db now id scope db = record db {
  orders = update_where (cancellable now id scope) cancel_row db.orders;
}

-- Nothing to cancel, or the one pending order in scope is cancelled and its rows are handed back.
abbrev pub Cancels : ℕ → ℕ → CancelScope → Db → Result (Option (List CancelledItem)) × Db → Type 0
Cancels now id scope db (ok none, d) =
    (d ≡ db) × (keep (in_scope now scope) (find (has_order_id id) db.orders) ≡ none)
Cancels now id scope db (ok (some rows), d) =
    (d ≡ cancelled_db now id scope db)
    × (is_some (keep (in_scope now scope) (find (has_order_id id) db.orders)) ≡ true)
    × (rows ≡ join_items d.orders (select (λ i. i.order_id == id) db.order_items))
Cancels now id scope db (err e, d) = ⊥

pub cancel_pending_order-Cancels :
    (now id : ℕ) (scope : CancelScope) (db : Db)
    → HasOrderKeys db
    → Cancels now id scope db (cancel_pending_order now id scope db)
unfolding cancel_pending_order
cancel_pending_order-Cancels now id CancelScope.expired db keys = ground (
  arith,
  keys id,
  find-and (has_order_id id) (in_scope now CancelScope.expired) db.orders,
  absent_by_count (cancellable now id CancelScope.expired) db.orders,
  find-none_count (cancellable now id CancelScope.expired) db.orders,
  update_where_absent (cancellable now id CancelScope.expired) cancel_row db.orders,
)
cancel_pending_order-Cancels now id (CancelScope.by_user user) db keys = ground (
  arith,
  keys id,
  find-and (has_order_id id) (in_scope now (CancelScope.by_user user)) db.orders,
  absent_by_count (cancellable now id (CancelScope.by_user user)) db.orders,
  find-none_count (cancellable now id (CancelScope.by_user user)) db.orders,
  update_where_absent (cancellable now id (CancelScope.by_user user)) cancel_row db.orders,
)

pub in_scope-cancellable :
    (now id : ℕ) (scope : CancelScope) (db : Db) (o : Order)
    → find (has_order_id id) db.orders ≡ some o
    → in_scope now scope o ≡ true
    → cancellable now id scope o ≡ true
in_scope-cancellable now id CancelScope.expired db o found h =
    ground (arith, find-holds (has_order_id id) db.orders o found)
in_scope-cancellable now id (CancelScope.by_user user) db o found h =
    ground (arith, find-holds (has_order_id id) db.orders o found)

keep-cancelled :
    (now : ℕ) (scope : CancelScope) (o : Order)
    → keep (in_scope now scope) (some (cancel_row o)) ≡ none
keep-cancelled now CancelScope.expired o = refl
keep-cancelled now (CancelScope.by_user user) o = refl

pub cancelled_db-HasOrderKeys :
    (now id : ℕ) (scope : CancelScope) (db : Db)
    → HasOrderKeys db
    → HasOrderKeys (cancelled_db now id scope db)
cancelled_db-HasOrderKeys now id scope db keys j =
    rw
      (count-update_where (cancellable now id scope) (has_order_id j) cancel_row (λ x. refl)
        db.orders)
      (keys j)

-- A cancelled order is found by no scope.
cancelled_db-none :
    (now later id : ℕ) (scope again : CancelScope) (db : Db)
    → is_some (keep (in_scope now scope) (find (has_order_id id) db.orders)) ≡ true
    → keep (in_scope later again) (find (has_order_id id) (cancelled_db now id scope db).orders)
      ≡ none
cancelled_db-none now later id scope again db hit = go (find (has_order_id id) db.orders) refl hit
  where
    go :
        (found : Option Order)
        → find (has_order_id id) db.orders ≡ found
        → is_some (keep (in_scope now scope) found) ≡ true
        → keep (in_scope later again) (find (has_order_id id) (cancelled_db now id scope db).orders)
          ≡ none
    go none e hit = cc
    go (some o) e hit =
        rw
          (
            find-cancelled now id scope db.orders o id e
                (in_scope-cancellable now id scope db o e (ground arith)),
            ==_refl id,
          )
          (keep-cancelled later again o)

no_more :
    (later id : ℕ) (again : CancelScope) (db : Db) (res : Result (Option (List CancelledItem)) × Db)
    → Cancels later id again db res
    → keep (in_scope later again) (find (has_order_id id) db.orders) ≡ none
    → res ≡ (ok none, db)
no_more later id again db (ok none, d) c gone = ground arith
no_more later id again db (ok (some rows), d) c gone = absurd (cc (rw gone at c.1))
no_more later id again db (err e, d) c gone = absurd c

-- Where order ids are unique, whoever cancels an order first is the only one: after a
-- cancellation that handed rows back, every further one of that order, in any scope and at any
-- time, finds nothing and changes nothing.
pub cancel_pending_order_once :
    (now later id : ℕ) (scope again : CancelScope) (db : Db) (rows : List CancelledItem)
    → HasOrderKeys db
    → (cancel_pending_order now id scope db).0 ≡ ok (some rows)
    → let after = (cancel_pending_order now id scope db).1 in
      cancel_pending_order later id again after ≡ (ok none, after)
cancel_pending_order_once now later id scope again db rows keys first =
    once_after (cancel_pending_order now id scope db)
      (cancel_pending_order-Cancels now id scope db keys) first
  where
    once_after :
        (res : Result (Option (List CancelledItem)) × Db)
        → Cancels now id scope db res
        → res.0 ≡ ok (some rows)
        → cancel_pending_order later id again res.1 ≡ (ok none, res.1)
    once_after (ok none, d) c e = absurd (cc)
    once_after (ok (some got), d) c e = rw c.0 (
        no_more later id again (cancelled_db now id scope db) _
          (cancel_pending_order-Cancels later id again (cancelled_db now id scope db)
            (cancelled_db-HasOrderKeys now id scope db keys))
          (cancelled_db-none now later id scope again db c.1))
    once_after (err x, d) c e = absurd c
