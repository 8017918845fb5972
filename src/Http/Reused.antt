-- ===== src/Http/Reused.antt =====
-- `placeOrder` under a key that the user has used before.
use flash_core.Common.{ℕ, ◌≡◌, refl, ◌∙◌, ap, Bool, true, false, Option, none, some, arith}
use flash_core.Common.Table.{find}
use flash_core.Store.{Db, World, Order, Action, Result, ok, err, on_db, ◌>>=◌, ◌>>◌}
use flash_core.Inventory.{
  Reserver, Reserved, Refusal, IsSound, IsKeyed, Grants, take_stock, give_stock,
}
use flash_core.Orders.{
  Stamp, NewOrder, has_key, create_order, Setting, Placement, CreateOrderDto, finish_with,
  finish_order, direct_order_with, place_direct_order, sale_order_with, sale_order_claimed,
  sale_refusal, place_sale_event_order, place_order_of, place_order, claim_user_quota,
  decrement_sale_event_stock, increment_sale_event_stock, release_user_quota,
  diagnose_sale_event_sku, Diagnosis,
}
use flash_core.Orders.Ledger.Creating.{Creates, create_order-Creates}
use flash_core.Interleaving.Statements.{claim-purchases}

module _ (user key : ℕ) (o : Order) where
  abbrev pub IsUsed : World → Type 0
  IsUsed w = find (has_key user key) w.db.orders ≡ some o

  -- The old order, not created.
  abbrev pub IsOld : Result Placement × World → Type 0
  IsOld (ok p, w') = (p.order ≡ o) × (p.created ≡ false)
  IsOld (err e, w') = Unit

  module _ (stamp : Stamp) (setting : Setting) where
    abbrev KeepsOrders : {A : Type 0} → World → Result A × World → Type 0
    KeepsOrders w res = res.1.db.orders ≡ w.db.orders

    reads-IsOld :
        (input : NewOrder) (release : Action World (Unit {0})) (w : World)
        → input.user_id ≡ user
        → input.idempotency_key ≡ key
        → IsUsed w
        → KeepsOrders w (release w)
        → IsOld (finish_with setting input release none w)
    unfolding finish_with
    reads-IsOld input release w mine same used kept = ground arith

    created-IsOld :
        (input : NewOrder) (release : Action World (Unit {0})) (w : World)
        (res : Result (Option Order) × Db)
        → input.user_id ≡ user
        → input.idempotency_key ≡ key
        → IsUsed w
        → ((v : World) → KeepsOrders v (release v))
        → Creates stamp input w.db res
        → IsOld (◌>>=◌ (on_db (λ s. res)) (finish_with setting input release) w)
    created-IsOld input release w (ok (some x), d) mine same used keeps (made, now, fresh, unused) =
        absurd (cc)
    created-IsOld input release w (ok none, d) mine same used keeps kept =
        reads-IsOld input release (record w { db = d }) mine same
          (ap (λ (x : Db). find (has_key user key) x.orders) kept ∙ used)
          (keeps (record w { db = d }))
    created-IsOld input release w (err e, d) mine same used keeps kept = tt

    finish_order-IsOld :
        (input : NewOrder) (release : Action World (Unit {0})) (w : World)
        → input.user_id ≡ user
        → input.idempotency_key ≡ key
        → IsUsed w
        → ((v : World) → KeepsOrders v (release v))
        → IsOld (finish_order stamp setting input release w)
    unfolding finish_order
    finish_order-IsOld input release w mine same used keeps =
        created-IsOld input release w (create_order stamp input w.db) mine same used keeps
          (create_order-Creates stamp input w.db)

    module _ (reserver : Reserver) (sound : IsSound reserver) where
      release_keeps : (sku q : ℕ) (v : World) → KeepsOrders v (reserver.release sku q v)
      release_keeps sku q v =
          ap (λ (x : World). x.db.orders) (sound.release_gives sku q v).1
          ∙ (unfold give_stock in refl)

      direct_order_with-IsOld :
          (sku q : ℕ) (answer : Reserved) (v : World)
          → IsUsed v
          → IsOld (direct_order_with stamp setting reserver user key sku q answer v)
      unfolding direct_order_with
      direct_order_with-IsOld sku q (Reserved.refused Refusal.sku_not_found) v used = tt
      direct_order_with-IsOld sku q (Reserved.refused Refusal.out_of_stock) v used = tt
      direct_order_with-IsOld sku q (Reserved.reserved price attempts) v used =
          finish_order-IsOld _ (reserver.release sku q) v refl refl used (release_keeps sku q)

      reserved-IsOld :
          (sku q : ℕ) (w : World) (res : Result Reserved × World)
          → IsUsed w
          → Grants sku q w res
          → IsOld (◌>>=◌ (λ s. res) (direct_order_with stamp setting reserver user key sku q) w)
      reserved-IsOld sku q w (ok (Reserved.reserved price attempts), v) used (granted, moved) =
          direct_order_with-IsOld sku q (Reserved.reserved price attempts) v (
            ap (λ (x : World). find (has_key user key) x.db.orders) moved
            ∙ (unfold take_stock in used))
      reserved-IsOld sku q w (ok (Reserved.refused reason), v) used moved =
          direct_order_with-IsOld sku q (Reserved.refused reason) v
            (ap (λ (x : World). find (has_key user key) x.db.orders) moved ∙ used)
      reserved-IsOld sku q w (err e, v) used moved = tt

    refusal-IsOld : (reason : Diagnosis) (w : World) → IsOld (sale_refusal reason w)
    unfolding sale_refusal
    refusal-IsOld Diagnosis.not_found w = tt
    refusal-IsOld Diagnosis.not_open w = tt
    refusal-IsOld Diagnosis.out_of_stock w = tt

    given_up-IsOld :
        (sale : ℕ) (w : World) (res : Result (Unit {0}) × Db)
        → IsOld (
            ◌>>◌
              (on_db (λ s. res))
              (◌>>=◌ (on_db (diagnose_sale_event_sku setting.diagnosed_at sale)) sale_refusal)
              w)
    given_up-IsOld sale w (ok done, d) =
        unfold diagnose_sale_event_sku in refusal-IsOld _ (record w { db = d })
    given_up-IsOld sale w (err e, d) = tt

    abbrev sale_release : ℕ → ℕ → Action World (Unit {0})
    sale_release sale q =
        on_db (increment_sale_event_stock sale q) >> on_db (release_user_quota sale user q)

    sale_release_keeps : (sale q : ℕ) (v : World) → KeepsOrders v (sale_release sale q v)
    unfolding increment_sale_event_stock release_user_quota
    sale_release_keeps sale q v = ground arith

    taken-IsOld :
        (sale q : ℕ) (w : World) (res : Result (Option (ℕ × ℕ)) × Db)
        → IsUsed w
        → res.1.orders ≡ w.db.orders
        → IsOld (◌>>=◌ (on_db (λ s. res)) (sale_order_with stamp setting user key sale q) w)
    unfolding sale_order_with
    taken-IsOld sale q w (ok none, d) used kept =
        given_up-IsOld sale (record w { db = d }) (release_user_quota sale user q d)
    taken-IsOld sale q w (ok (some x), d) used kept =
        finish_order-IsOld _ (sale_release sale q) (record w { db = d }) refl refl
          (ap (find (has_key user key)) kept ∙ used) (sale_release_keeps sale q)
    taken-IsOld sale q w (err e, d) used kept = tt

    claimed-IsOld :
        (sale q : ℕ) (w : World) (res : Result Bool × Db)
        → IsUsed w
        → res.1.orders ≡ w.db.orders
        → IsOld (◌>>=◌ (on_db (λ s. res)) (sale_order_claimed stamp setting user key sale q) w)
    unfolding sale_order_claimed
    claimed-IsOld sale q w (ok true, d) used kept =
        taken-IsOld sale q (record w { db = d })
          (decrement_sale_event_stock setting.reserved_at sale q d)
          (ap (find (has_key user key)) kept ∙ used) (unfold decrement_sale_event_stock in refl)
    claimed-IsOld sale q w (ok false, d) used kept = tt
    claimed-IsOld sale q w (err e, d) used kept = tt

    module _ (reserver : Reserver) (sound : IsSound reserver) where
      place_order_of-IsOld :
          (q : ℕ) (sku sale : Option ℕ) (w : World)
          → IsKeyed w.db
          → IsUsed w
          → IsOld (place_order_of stamp setting reserver user key q sku sale w)
      unfolding place_order_of place_sale_event_order place_direct_order
      place_order_of-IsOld q sku (some sale) w keyed used =
          claimed-IsOld sale q w (claim_user_quota sale user q w.db) used
            (ap (λ (x : Db). x.orders) (claim-purchases sale user q w.db))
      place_order_of-IsOld q (some sku) none w keyed used =
          reserved-IsOld reserver sound sku q w (reserver.reserve sku q w) used
            (sound.reserve_grants sku q w keyed)
      place_order_of-IsOld q none none w keyed used = tt

      -- Under a key that the user has an order for, `placeOrder`, for a SKU by a sound
      -- strategy or for a sale SKU, hands back that order, not created, or it throws;
      -- it never makes a second order. SKU ids are unique.
      pub place_order-IsOld :
          (dto : CreateOrderDto) (w : World)
          → IsKeyed w.db
          → IsUsed w
          → IsOld (place_order stamp setting reserver user key dto w)
      unfolding place_order
      place_order-IsOld dto w keyed used =
          place_order_of-IsOld dto.quantity dto.sku_id dto.sale_event_sku_id w keyed used
