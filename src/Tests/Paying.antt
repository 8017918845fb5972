-- ===== src/Tests/Paying.antt =====
-- Payments for the orders of the shop.
use flash_core.Common.{◌≡◌, refl, inl, some, [], ◌∷◌, arith}
use flash_core.Common.Table.{find, update_where}
use flash_core.Store.{Db, OrderStatus, RefundReason, ok}
use flash_core.Orders.{has_order_id, CancelScope}
use flash_core.Orders.Ledger.Outcome.{cancelled_db}
use flash_core.Payments.{
  SettlePayment, Settlement, settle, settle_found, pay_row, payable, refund_of,
}
use flash_core.Payments.Laws.{
  with_mark, settle_again, settle_paid_again, settle-cancelled, settle_pending, settle_refused,
}
use flash_core.Tests.Shop.{shop_db, shop-IsLinked, order_of_lan, order_of_minh}

abbrev lan_pays : SettlePayment
lan_pays = record { event_id = 500; order_id = 10; payment_intent_id = 9001; amount_vnd = 1000 }

abbrev lan_pays_less : SettlePayment
lan_pays_less = record lan_pays { amount_vnd = 400 }

abbrev minh_pays_again : SettlePayment
minh_pays_again = record {
  event_id = 501;
  order_id = 11;
  payment_intent_id = 9002;
  amount_vnd = 500;
}

abbrev lan_cancelled : Db
lan_cancelled = cancelled_db 600 10 (CancelScope.by_user 100) shop_db

settle_run : (settle 600 lan_pays shop_db).0 ≡ ok Settlement.now_paid
unfolding settle settle_found
settle_run = refl

settle_pending_example :
    (settle 600 lan_pays shop_db ≡ (
      ok Settlement.now_paid,
      record (with_mark 600 lan_pays shop_db) {
        orders = update_where (payable 10) (pay_row 9001) shop_db.orders;
      },
    ))
    × (find (has_order_id 10) (settle 600 lan_pays shop_db).1.orders
        ≡ some (pay_row 9001 order_of_lan))
settle_pending_example =
    settle_pending 600 lan_pays shop_db order_of_lan refl (shop-IsLinked.order_keys 10) refl refl
      refl refl

settle_refused_example : settle 600 lan_pays_less shop_db ≡ (
  ok (Settlement.refund_required RefundReason.amount_mismatch),
  record (with_mark 600 lan_pays_less shop_db) {
    refunds = refund_of lan_pays_less RefundReason.amount_mismatch ∷ [];
  },
)
settle_refused_example =
    settle_refused 600 lan_pays_less shop_db order_of_lan refl refl refl (omega arith)
      (inl (λ e. absurd (omega arith)))

settle_again_example :
    settle 700 lan_pays (settle 600 lan_pays shop_db).1
    ≡ (ok Settlement.already_handled, (settle 600 lan_pays shop_db).1)
unfolding settle settle_found
settle_again_example = settle_again 600 700 lan_pays shop_db Settlement.now_paid refl

settle_paid_again_example :
    settle 600 minh_pays_again shop_db
    ≡ (ok Settlement.already_handled, with_mark 600 minh_pays_again shop_db)
settle_paid_again_example =
    settle_paid_again 600 minh_pays_again shop_db order_of_minh refl (shop-IsLinked.order_keys 11)
      refl refl refl

settle-cancelled_example :
    find (has_order_id 10) (settle 700 lan_pays lan_cancelled).1.orders
    ≡ some (record order_of_lan { status = OrderStatus.cancelled })
settle-cancelled_example =
    settle-cancelled 700 lan_pays lan_cancelled 10
      (record order_of_lan { status = OrderStatus.cancelled }) refl refl
