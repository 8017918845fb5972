-- ===== src/Http/Repeating.antt =====
-- `Idempotency-Key`: what a call made stays under its key, and a call under a used key makes nothing.
use flash_core.Common.{
  ℕ, ◌≡◌, ◌∙◌, sym, ap, Bool, true, false, Option, none, some, [], ◌∷◌, arith, ==_refl,
}
use flash_core.Common.Table.{find, find-append}
use flash_core.Store.{Db, World, Order, Action, Result, ok, err, on_db, ◌>>=◌, ◌>>◌}
use flash_core.Inventory.{Reserver, Reserved, Refusal}
use flash_core.Orders.{
  Stamp, NewOrder, has_key, new_order, create_order, Setting, Placement, CreateOrderDto,
  finish_with, finish_order, direct_order_with, place_direct_order, sale_order_with,
  sale_order_claimed, sale_refusal, place_sale_event_order, place_order_of, place_order,
  claim_user_quota, decrement_sale_event_stock, increment_sale_event_stock, release_user_quota,
  diagnose_sale_event_sku, Diagnosis,
}
use flash_core.Orders.Ledger.Creating.{with_order, Creates, create_order-Creates}

-- An order that was made in this call is found under the user's key.
abbrev pub IsFound : ℕ → ℕ → Result Placement × World → Type 0
IsFound user key (ok p, w') = p.created ≡ true → find (has_key user key) w'.db.orders ≡ some p.order
IsFound user key (err e, w') = Unit

with_order-has_key :
    (stamp : Stamp) (input : NewOrder) (db : Db)
    → find (has_key input.user_id input.idempotency_key) db.orders ≡ none
    → find (has_key input.user_id input.idempotency_key) (with_order stamp input db).orders
      ≡ some (new_order stamp input)
unfolding with_order
with_order-has_key stamp input db unused = ground (
  arith,
  find-append (has_key input.user_id input.idempotency_key) db.orders (new_order stamp input ∷ []),
  ==_refl input.user_id,
  ==_refl input.idempotency_key,
)

module _ (stamp : Stamp) (setting : Setting) (reserver : Reserver) where
  finish_with-IsFound :
      (input : NewOrder) (release : Action World (Unit {0})) (o : Order) (w : World)
      → find (has_key input.user_id input.idempotency_key) w.db.orders ≡ some o
      → IsFound input.user_id input.idempotency_key (finish_with setting input release (some o) w)
  unfolding finish_with
  finish_with-IsFound input release o w found = ground arith

  duplicate-IsFound :
      (input : NewOrder) (release : Action World (Unit {0})) (w : World)
      → IsFound input.user_id input.idempotency_key (finish_with setting input release none w)
  unfolding finish_with
  duplicate-IsFound input release w = ground arith

  created-IsFound :
      (input : NewOrder) (release : Action World (Unit {0})) (w : World)
      (res : Result (Option Order) × Db)
      → Creates stamp input w.db res
      → IsFound input.user_id input.idempotency_key
          (◌>>=◌ (on_db (λ s. res)) (finish_with setting input release) w)
  created-IsFound input release w (ok (some o), d) (mine, same, fresh, unused) =
      finish_with-IsFound input release o (record w { db = d })
        (ap (λ (x : Db). find (has_key input.user_id input.idempotency_key) x.orders) same
          ∙ with_order-has_key stamp input w.db unused
          ∙ ap some (sym mine))
  created-IsFound input release w (ok none, d) same =
      duplicate-IsFound input release (record w { db = d })
  created-IsFound input release w (err e, d) same = tt

  finish_order-IsFound :
      (input : NewOrder) (release : Action World (Unit {0})) (w : World)
      → IsFound input.user_id input.idempotency_key (finish_order stamp setting input release w)
  unfolding finish_order
  finish_order-IsFound input release w =
      created-IsFound input release w (create_order stamp input w.db)
        (create_order-Creates stamp input w.db)

  direct_order_with-IsFound :
      (user key sku q : ℕ) (answer : Reserved) (v : World)
      → IsFound user key (direct_order_with stamp setting reserver user key sku q answer v)
  unfolding direct_order_with
  direct_order_with-IsFound user key sku q (Reserved.refused Refusal.sku_not_found) v = tt
  direct_order_with-IsFound user key sku q (Reserved.refused Refusal.out_of_stock) v = tt
  direct_order_with-IsFound user key sku q (Reserved.reserved price attempts) v =
      finish_order-IsFound _ (reserver.release sku q) v

  reserved-IsFound :
      (user key sku q : ℕ) (w : World) (res : Result Reserved × World)
      → IsFound user key
          (◌>>=◌ (λ s. res) (direct_order_with stamp setting reserver user key sku q) w)
  reserved-IsFound user key sku q w (ok answer, v) =
      direct_order_with-IsFound user key sku q answer v
  reserved-IsFound user key sku q w (err e, v) = tt

  place_direct_order-IsFound :
      (user key sku q : ℕ) (w : World)
      → IsFound user key (place_direct_order stamp setting reserver user key sku q w)
  unfolding place_direct_order
  place_direct_order-IsFound user key sku q w =
      reserved-IsFound user key sku q w (reserver.reserve sku q w)

  refusal-IsFound :
      (user key : ℕ) (reason : Diagnosis) (w : World) → IsFound user key (sale_refusal reason w)
  unfolding sale_refusal
  refusal-IsFound user key Diagnosis.not_found w = tt
  refusal-IsFound user key Diagnosis.not_open w = tt
  refusal-IsFound user key Diagnosis.out_of_stock w = tt

  given_up-IsFound :
      (user key sale : ℕ) (w : World) (res : Result (Unit {0}) × Db)
      → IsFound user key (
          ◌>>◌
            (on_db (λ s. res))
            (◌>>=◌ (on_db (diagnose_sale_event_sku setting.diagnosed_at sale)) sale_refusal)
            w)
  given_up-IsFound user key sale w (ok done, d) =
      unfold diagnose_sale_event_sku in refusal-IsFound user key _ (record w { db = d })
  given_up-IsFound user key sale w (err e, d) = tt

  taken-IsFound :
      (user key sale q : ℕ) (w : World) (res : Result (Option (ℕ × ℕ)) × Db)
      → IsFound user key
          (◌>>=◌ (on_db (λ s. res)) (sale_order_with stamp setting user key sale q) w)
  unfolding sale_order_with
  taken-IsFound user key sale q w (ok none, d) =
      given_up-IsFound user key sale (record w { db = d }) (release_user_quota sale user q d)
  taken-IsFound user key sale q w (ok (some x), d) =
      finish_order-IsFound _
        (on_db (increment_sale_event_stock sale q) >> on_db (release_user_quota sale user q))
        (record w { db = d })
  taken-IsFound user key sale q w (err e, d) = tt

  claimed-IsFound :
      (user key sale q : ℕ) (w : World) (res : Result Bool × Db)
      → IsFound user key
          (◌>>=◌ (on_db (λ s. res)) (sale_order_claimed stamp setting user key sale q) w)
  unfolding sale_order_claimed
  claimed-IsFound user key sale q w (ok true, d) =
      taken-IsFound user key sale q (record w { db = d })
        (decrement_sale_event_stock setting.reserved_at sale q d)
  claimed-IsFound user key sale q w (ok false, d) = tt
  claimed-IsFound user key sale q w (err e, d) = tt

  place_order_of-IsFound :
      (user key q : ℕ) (sku sale : Option ℕ) (w : World)
      → IsFound user key (place_order_of stamp setting reserver user key q sku sale w)
  unfolding place_order_of place_sale_event_order
  place_order_of-IsFound user key q sku (some sale) w =
      claimed-IsFound user key sale q w (claim_user_quota sale user q w.db)
  place_order_of-IsFound user key q (some sku) none w = place_direct_order-IsFound user key sku q w
  place_order_of-IsFound user key q none none w = tt

  pub place_order-IsFound :
      (user key : ℕ) (dto : CreateOrderDto) (w : World)
      → IsFound user key (place_order stamp setting reserver user key dto w)
  unfolding place_order
  place_order-IsFound user key dto w =
      place_order_of-IsFound user key dto.quantity dto.sku_id dto.sale_event_sku_id w
