-- ===== src/Lib.antt =====
-- Verification of flash-core: a shop backend that sells scarce stock without overselling it.
--
-- The program takes an order by first taking stock and then inserting the order; when the second
-- step finds that the order exists already, or when an order is cancelled later, the stock goes back.
-- Payments settle orders by webhooks that may come twice.
--
--   Common     numbers, lists with native length, tables (lists of rows) and the SQL verbs on them
--   Store      prisma/schema.prisma: one record per table, the database `Db`, the world (database,
--              Redis counters, delayed jobs, metrics) and the actions on it: a result or an error,
--              with the state left behind; `transaction` takes the state back on an error
--   Inventory  src/modules/order/strategies/*.reserver.ts and the stock statements of
--              src/modules/order/order.repository.ts. `Reserver` is inventory-reserver.ts,
--              `Keeps` what a strategy promises, by what the UPDATE of its releases meets, and
--              `IsSound` the same where that UPDATE runs, which the services rely on
--   Orders     src/modules/order/order.service.ts (`place_order`, `cancel_my_order`, `get_my_order`),
--              order.expiry.service.ts (`cancel_expired`, `sweep_expired`) and the statements of
--              order.repository.ts they use. Orders/Ledger counts where the units of a SKU are
--   Interleaving  the handlers of order.service.ts, order.expiry.service.ts and
--              order-payment.service.ts cut at their statements: `advance` is one statement of one
--              call, `Step` one step of a system of calls on one database
--   Payments   src/modules/order/order-payment.service.ts (`settle`), the marks of
--              src/modules/outbox/idempotency.repository.ts, src/modules/payment/payment.service.ts,
--              payment-checkout.service.ts and payment.signature.ts
--   Outbox     src/modules/outbox/outbox.repository.ts and outbox.relay.ts: `relay_once` puts the rows
--              that `create_order` wrote into the queue
--   Notifications  src/modules/order/order.notifier.ts: `send_confirmation`, with the sender and the
--              user directory as arguments
--   SaleEvents src/modules/sale-event/: `create` makes a draft, `publish` cuts units out of the SKUs,
--              `settle_ended` gives what is left back, `sale_event_status` is computed from the clock
--   Auth       src/modules/auth/auth.service.ts (`register`, `login`, `refresh`, `logout`),
--              auth.repository.ts, the guards, and the counters of src/infra/redis/redis.service.ts and
--              src/common/security/ip-rate-limit.guard.ts
--   Pages      src/common/pagination/cursor.ts and the keyset queries; `list_page` is one page, and
--              Orders.History.list_my_orders the list of a buyer's orders
--   Catalogue  src/modules/product/: slugs and SKU codes, the statements and the service
--   Csrf       src/common/csrf/: the signed double-submit token, the guard, the middleware
--   Retention  src/modules/retention/: `sweep` deletes old rows in at most MAX_ROUNDS batches
--   Worker     src/worker/job.processor.ts: jobs by name, over a record of the services;
--              `run_turn` is src/worker-once.ts
--   Http       the error classes, src/common/filters/ (`catch_exception`), src/common/pipes/, the
--              controllers of src/modules/order/, payment/ and auth/ with auth.cookies.ts, and
--              src/modules/health/. A route is its handler behind its guard and its pipe
--   Tests      a small shop, runs on it, and every theorem at a concrete input
--
-- Names are those of the source in snake case (`decrementStockConditional` is
-- `decrement_stock_conditional`). Ids, keys and times are numbers: a UUID is its 128-bit value, a
-- time is milliseconds. Generated ids and the clocks are arguments (`Stamp`, `Setting`).
--
-- A single SQL statement or transaction is one step. A theorem on a handler is about a run that nothing
-- interrupts; Interleaving lets statements of other calls run in between, with the conditional UPDATE
-- as the reservation (the pessimistic strategy comes to the same verdict), and lets calls stop. What
-- a statement may answer besides its result is an argument: `Fate` says whether it runs, meets a
-- serialization conflict or breaks. The strategies' attempts are counted by fuel: MAX_ATTEMPTS
-- rounds, as the source's loop has. INTEGER columns are 32 bits: an insert beyond them is an error.
--
-- MAX_ROUNDS bounds a sweep of Retention in the same way, and the walk over pages needs one request
-- more than there are rows. Texts are lists of their units where the code looks into them (cursors,
-- slugs, tokens, signatures); elsewhere they are only compared, and are numbers.
--
-- The digits of a timestamp are written with fuel 16, which every safe integer fits.
--
-- A statement without a `Fate` is one that the database answers: the UPDATE and SELECT of a
-- cancellation, and the failures of an INSERT other than its unique keys, its CHECK and its INTEGER
-- columns, are taken so. An UPDATE that gives units back is taken not to leave the INTEGER range.
-- `Number` on the digits of a signature header is exact, where JavaScript rounds beyond 2 ^ 53. The
-- transaction of `settle` is one step between other calls. The queue hands a finite list of jobs to a
-- turn of the worker, for what BullMQ hands out before the queue is drained or the time is up.
--
-- Not modelled: the start of the processes and their configuration, logging, connections, and the
-- controllers of products and sale events, which pass their arguments on; the product columns of
-- `detail` in sale-event.service.ts. HMAC, argon2, the signing of access tokens,
-- base64url, ISO dates and Unicode normalization belong to Node and its packages: they are
-- parameters.
pub mod Common
pub mod Store
pub mod Inventory
pub mod Pages
pub mod Orders
pub mod Payments
pub mod Outbox
pub mod Notifications
pub mod SaleEvents
pub mod Auth
pub mod Retention
pub mod Worker
pub mod Catalogue
pub mod Csrf
pub mod Http
pub mod Interleaving
mod Tests
