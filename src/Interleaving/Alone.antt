-- ===== src/Interleaving/Alone.antt =====
-- A call for a SKU that runs alone against `placeDirectOrder`, from which it was cut.
use mathlib.Core.Path.{subst}
use flash_core.Common.{
  ℕ, zero, suc, ◌+◌, ◌*◌, ◌≤◌, ◌≡◌, refl, ◌∙◌, sym, ap, true, Option, none, some, List, [], ◌∷◌,
  arith,
}
use flash_core.Common.Sequence.{length}
use flash_core.Common.Table.{find}
use flash_core.Orders.{has_key}
use flash_core.Orders.{count_placed}
use flash_core.Store.{PlacedLabel, pure, Db, World, Order, Result, ok, err, on_db, ◌>>=◌, ◌>>◌}
use flash_core.Inventory.{
  IsKeyed, Verdict, verdict, settled, Refusal, decrement_stock_conditional, increment_stock,
}
use flash_core.Inventory.Pessimistic.{pessimistic}
use flash_core.Inventory.Contract.{
  answer, pessimistic_reserve-verdict, price_of, decrement_stock_conditional_lem,
}
use flash_core.Orders.{
  Stamp, NewOrder, create_order, CancelledItem, release_all, release_stock, release_to, Setting,
  Placement, finish_with, finish_order, direct_order_with, place_direct_order, expiry_of,
  find_order_by_idempotency_key, existing_order, schedule_expiry, release_user_quota,
  increment_sale_event_stock,
}
use flash_core.Orders.Placing.{direct_input}
use flash_core.Interleaving.Calls.{
  Call, Moment, row_of, on_reserved, on_created, on_unclaimed, release_first, advance,
}

-- `n` statements of a call with nothing in between.
unfoldable pub alone : ℕ → Moment → Call × Db → Call × Db
alone zero m s = s
alone (suc n) m s = alone n m (advance m s.0 s.1)

alone-ended : (n : ℕ) (m : Moment) (db : Db) → alone n m (Call.ended, db) ≡ (Call.ended, db)
unfolding alone advance
alone-ended zero m db = refl
alone-ended (suc n) m db = alone-ended n m db

alone-stopped :
    (n : ℕ) (m : Moment) (call : Call) (db : Db)
    → alone n m (Call.stopped call, db) ≡ (Call.stopped call, db)
unfolding alone advance
alone-stopped zero m call db = refl
alone-stopped (suc n) m call db = alone-stopped n m call db

-- Reading the order that the key belongs to, and its counters, write no table.
existing_order-db : (found : Option Order) (w : World) → (existing_order found w).1.db ≡ w.db
unfolding existing_order
existing_order-db none w = refl
existing_order-db (some o) w = refl

schedule_expiry-db :
    (setting : Setting) (order : Order) (w : World) → (schedule_expiry setting order w).1.db ≡ w.db
unfolding schedule_expiry
schedule_expiry-db setting order w = ground arith

schedule_expiry-ok :
    (setting : Setting) (order : Order) (w : World) → (schedule_expiry setting order w).0 ≡ ok tt
unfolding schedule_expiry
schedule_expiry-ok setting order w = ground arith

module _ (m : Moment) where
  unclaimed_alone :
      (rows : List CancelledItem) (n : ℕ) (w : World) (res : Result (Unit {0}) × Db)
      → 1 + 2 * length rows ≤ n
      → ((v : World)
          → (release_all pessimistic rows v).1.db ≡ (alone n m (Call.releasing rows, v.db)).1)
      → (◌>>◌ (on_db (λ s. res)) (release_all pessimistic rows) w).1.db
        ≡ (alone n m (on_unclaimed rows res)).1
  unfolding on_unclaimed
  unclaimed_alone rows n w (ok done, d) enough rest = rest (record w { db = d })
  unclaimed_alone rows n w (err e, d) enough rest =
      sym (ap (λ (s : Call × Db). s.1) (alone-stopped n m (Call.releasing rows) d))

  -- Releasing rows is the loop of `releaseStock`.
  released_alone :
      (item : CancelledItem) (rows : List CancelledItem) (origin : Option ℕ) (n : ℕ) (w : World)
      → 2 + 2 * length rows ≤ n
      → ((k : ℕ) (v : World)
          → 1 + 2 * length rows ≤ k
          → (release_all pessimistic rows v).1.db ≡ (alone k m (Call.releasing rows, v.db)).1)
      → (◌>>◌ (release_to pessimistic item origin) (release_all pessimistic rows) w).1.db
        ≡ (alone n m (release_first item rows origin w.db)).1
  unfolding release_to release_first pessimistic
  released_alone item rows none n w enough rest =
      rest n (record w { db = (increment_stock item.sku_id item.quantity w.db).1 })
        (omega (arith, enough))
  released_alone item rows (some sale) zero w enough rest = absurd (omega arith)
  released_alone item rows (some sale) (suc n) w enough rest =
      let d = (increment_sale_event_stock sale item.quantity w.db).1 in
      unfold alone advance in
      unclaimed_alone rows n (record w { db = d })
        (release_user_quota sale item.user_id item.quantity d) (omega arith)
        (λ v. rest n v (omega arith))

  release_all-alone :
      (rows : List CancelledItem) (n : ℕ) (w : World)
      → 1 + 2 * length rows ≤ n
      → (release_all pessimistic rows w).1.db ≡ (alone n m (Call.releasing rows, w.db)).1
  unfolding release_all release_stock alone advance
  release_all-alone rows zero w enough = absurd (omega arith)
  release_all-alone [] (suc n) w enough = sym (ap (λ (s : Call × Db). s.1) (alone-ended n m w.db))
  release_all-alone (item ∷ rows) (suc n) w enough =
      released_alone item rows item.sale_event_sku_id n w (omega arith)
        (λ k v few. release_all-alone rows k v few)

module _ (stamp : Stamp) (setting : Setting) (user key sku q : ℕ) where
  -- What the statements of the cut meet when they run in one call.
  abbrev pub at_once : Moment
  at_once = record { stamp = stamp; now = setting.reserved_at; expires_at = expiry_of setting }

  abbrev asked : ℕ → NewOrder
  asked price = direct_input stamp setting user key sku q price

  abbrev given_back : World → Db
  given_back w = (increment_stock sku q w.db).1

  -- With the key in use the units go back, and the order is read.
  duplicate_db :
      (price : ℕ) (w : World)
      → (finish_with setting (asked price) (pessimistic.release sku q) none w).1.db ≡ given_back w
  unfolding finish_with pessimistic find_order_by_idempotency_key
  duplicate_db price w =
      existing_order-db (find (has_key user key) (given_back w).orders)
        (record w { db = given_back w })

  released_db :
      (price : ℕ) (w : World)
      → (release_all pessimistic (row_of (asked price) ∷ []) w).1.db ≡ given_back w
  unfolding release_all release_stock release_to pessimistic
  released_db price w = refl

  created_db :
      (o : Order) (w : World) (res : Result (Unit {0}) × World)
      → res.0 ≡ ok tt
      → res.1.db ≡ w.db
      → (◌>>◌ {S = World} {B = Placement}
          (λ s. res)
          (count_placed PlacedLabel.created >> pure (record { order = o; created = true }))
          w).1.db
        ≡ w.db
  unfolding count_placed
  created_db o w (ok done, v) fine same = same
  created_db o w (err e, v) fine same = same

  finished_alone :
      (price n : ℕ) (w : World) (res : Result (Option Order) × Db)
      → 3 ≤ n
      → (◌>>=◌
          (on_db (λ s. res))
          (finish_with setting (asked price) (pessimistic.release sku q))
          w).1.db
        ≡ (alone n at_once (on_created (asked price) res)).1
  unfolding on_created finish_with
  finished_alone price n w (ok (some o), d) enough =
      created_db o (record w { db = d }) (schedule_expiry setting o (record w { db = d }))
        (schedule_expiry-ok setting o (record w { db = d }))
        (schedule_expiry-db setting o (record w { db = d }))
      ∙ sym (ap (λ (s : Call × Db). s.1) (alone-ended n at_once d))
  finished_alone price n w (ok none, d) enough =
      duplicate_db price (record w { db = d })
      ∙ sym (released_db price (record w { db = d }))
      ∙ release_all-alone at_once (row_of (asked price) ∷ []) n (record w { db = d })
          (omega (arith, enough))
  finished_alone price n w (err e, d) enough =
      sym (ap (λ (s : Call × Db). s.1) (alone-stopped n at_once (Call.creating (asked price)) d))

  answered_alone :
      (n : ℕ) (w : World) (v : Verdict)
      → 4 ≤ n
      → (direct_order_with stamp setting pessimistic user key sku q
          (answer 1 v)
          (record w { db = settled sku q v w.db })).1.db
        ≡ (alone n at_once
            (on_reserved at_once user key sku q (ok (price_of v), settled sku q v w.db))).1
  unfolding direct_order_with on_reserved alone advance finish_order count_placed
  answered_alone zero w v enough = absurd (omega arith)
  answered_alone (suc n) w (Verdict.granted price) enough =
      let d = settled sku q (Verdict.granted price) w.db in
      finished_alone price n (record w { db = d }) (create_order stamp (asked price) d)
        (omega arith)
  answered_alone (suc n) w (Verdict.denied Refusal.out_of_stock) enough =
      sym (ap (λ (s : Call × Db). s.1) (alone-ended n at_once w.db))
  answered_alone (suc n) w (Verdict.denied Refusal.sku_not_found) enough =
      sym (ap (λ (s : Call × Db). s.1) (alone-ended n at_once w.db))

  -- Where SKU ids are unique, `placeDirectOrder` with the pessimistic strategy leaves the tables
  -- that the statements of its cut leave, run one after the other to their end, for which five are
  -- enough.
  pub place_direct_order-alone :
      (n : ℕ) (w : World)
      → IsKeyed w.db
      → 5 ≤ n
      → (place_direct_order stamp setting pessimistic user key sku q w).1.db
        ≡ (alone n at_once (Call.reserving user key sku q, w.db)).1
  unfolding place_direct_order alone advance pessimistic
  place_direct_order-alone zero w keyed enough = absurd (omega arith)
  place_direct_order-alone (suc n) w keyed enough =
      subst
        (λ res.
          (◌>>=◌ {S = World} (λ s. res) (direct_order_with stamp setting pessimistic user key sku q)
            w).1.db
          ≡ (alone n at_once
              (on_reserved at_once user key sku q (decrement_stock_conditional sku q w.db))).1)
        (sym (pessimistic_reserve-verdict sku q w keyed))
        (subst
          (λ res.
            (direct_order_with stamp setting pessimistic user key sku q
              (answer 1 (verdict sku q w.db))
              (record w { db = settled sku q (verdict sku q w.db) w.db })).1.db
            ≡ (alone n at_once (on_reserved at_once user key sku q res)).1)
          (sym (decrement_stock_conditional_lem sku q w.db keyed))
          (answered_alone n w (verdict sku q w.db) (omega arith)))
