-- ===== src/Tests/Orders.antt =====
-- A history of the orders service, and the theorems of Orders at it.
use polyglot_ticketing_v.Base.{ℕ, ◌+◌, ◌≤◌, String, ◌≡◌, refl, some, arith}
use polyglot_ticketing_v.Orders.{
  canceled, complete, Ticket, TicketReservationInput, Database, expiration_window,
}
use polyglot_ticketing_v.Orders.History.{
  reserve, expiration_complete, payment_created, payment_succeeded, ticket_event, perform, empty,
  Reach, start, wait, step, open_orders,
}
use polyglot_ticketing_v.Orders.History.Accounts.{Accounted}
use polyglot_ticketing_v.Orders.History.Limit.{open_orders_limited}
use polyglot_ticketing_v.Orders.History.Ledger.Histories.{outbox-Accounted}
use polyglot_ticketing_v.Orders.History.Finality.{status_of}
use polyglot_ticketing_v.Orders.History.Finality.Histories.{stay, go_on, final_orders_stay}
use polyglot_ticketing_v.Orders.Repository.{
  reserve_ticket, find_blocking_order, update_order, apply_expiration_complete,
  apply_payment_created, apply_payment_succeeded, upsert_ticket_from_event,
  decide_ticket_event_version,
}

abbrev pub ticket : Ticket
ticket = record { aggregate_version = 0; id = "ticket"; title = "Concert"; price = 2500 }

abbrev pub by : String → ℕ → TicketReservationInput
by user_id now = record {
  expires_at = now + expiration_window;
  ticket_id = "ticket";
  user_id = user_id;
}

-- Ann's order runs out, Bob reserves the ticket after that.
abbrev pub offered : Database
offered = perform 0 (ticket_event "event-0" ticket) empty

abbrev pub reserved_by_ann : Database
reserved_by_ann = perform 0 (reserve "order-1" (by "ann" 0)) offered

abbrev expired : Database
expired = perform 900000 (expiration_complete "event-1" "order-1") reserved_by_ann

abbrev reserved_by_bob : Database
reserved_by_bob = perform 900000 (reserve "order-2" (by "bob" 900000)) expired

abbrev reach : Reach 900000 reserved_by_bob
reach = step (reserve "order-2" (by "bob" 900000)) (
    step (expiration_complete "event-1" "order-1") (
      wait 900000 (omega arith)
        (step (reserve "order-1" (by "ann" 0)) (step (ticket_event "event-0" ticket) start))))

one_open_order : open_orders 900000 "ticket" reserved_by_bob.orders ≡ 1
unfolding reserve_ticket find_blocking_order update_order apply_expiration_complete
    upsert_ticket_from_event decide_ticket_event_version
one_open_order = refl

order_1-canceled : status_of "order-1" expired.orders ≡ some canceled
unfolding reserve_ticket find_blocking_order update_order apply_expiration_complete
    upsert_ticket_from_event decide_ticket_event_version
order_1-canceled = refl

-- The order that runs out while its payment is awaited does not stop the next one, and both are
-- paid.
abbrev sold_twice : Database
sold_twice = perform 900003 (payment_succeeded "event-4" "order-2") (
    perform 900002 (payment_succeeded "event-3" "order-1") (
      perform 900000 (reserve "order-2" (by "bob" 900000))
        (perform 1 (payment_created "event-1" "order-1") reserved_by_ann)))

both_complete :
    (status_of "order-1" sold_twice.orders ≡ some complete)
    × (status_of "order-2" sold_twice.orders ≡ some complete)
unfolding reserve_ticket find_blocking_order update_order apply_payment_created
    apply_payment_succeeded upsert_ticket_from_event decide_ticket_event_version
both_complete = (refl, refl)

open_orders_limited_example : open_orders 900000 "ticket" reserved_by_bob.orders ≤ 1
open_orders_limited_example = open_orders_limited reach "ticket"

outbox-Accounted_example : Accounted reserved_by_bob
outbox-Accounted_example = outbox-Accounted reach

final_orders_stay_example :
    status_of "order-1"
      (perform 900001 (payment_succeeded "event-2" "order-1") reserved_by_bob).orders
    ≡ some canceled
final_orders_stay_example =
    final_orders_stay "order-1" canceled refl
      (go_on 900001 (payment_succeeded "event-2" "order-1")
        (go_on 900000 (reserve "order-2" (by "bob" 900000)) stay))
      order_1-canceled
