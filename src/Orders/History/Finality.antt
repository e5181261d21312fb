-- ===== src/Orders/History/Finality.antt =====
-- A row that is complete or canceled, over the pieces of the transactions.
pub mod Histories
use polyglot_ticketing_v.Base.{
  ℕ, ◌≤◌, String, ◌≡◌, ◌≢◌, refl, sym, ap, subst, ◌∙◌, Bool, true, false, ◌&&◌, ◌||◌, not,
  Bool-cases, inl, inr, Option, none, some, List, [], ◌∷◌, Result, ok, err, contains, str_eq,
  eq_iff, if◌then◌else◌, arith,
}
use polyglot_ticketing_v.Orders.{
  Status, created, canceled, awaiting_payment, complete, Ticket, Order, TicketReservationInput,
  OrderError, Database, is_pending, is_complete,
}
use polyglot_ticketing_v.Orders.Repository.{
  TicketEventVersionDecision, apply_ticket_event_version, ignore_ticket_event_version, version_of,
  find_ticket, decide_ticket_event_version, update_order, has_order, find_blocking_order,
  after_find, after_ticket, reserve_ticket, after_cancel, cancel_by_id_and_user, once, cancel_found,
  cancel_where, with_orders, move_where, was_created, was_pending, pending_of,
  apply_expiration_complete, apply_payment_created, apply_payment_succeeded, apply_payment_failed,
  upsert_ticket_from_event, after_decision,
}
use polyglot_ticketing_v.Orders.Repository.Updates.{
  moved, allowed, Update, missing, here, refused, later, update_order-Update,
}
use polyglot_ticketing_v.Orders.History.{
  Action, reserve, cancel, expiration_complete, payment_created, payment_succeeded, payment_failed,
  ticket_event, perform,
}
use polyglot_ticketing_v.Orders.History.Accounts.{or_false, true-ne-false}
use polyglot_ticketing_v.Orders.History.Limit.{
  created-any, pending-canceled, pending-complete, pending_of-canceled,
}

-- The status of the row with a key.
abbrev pub status_of : String → List Order → Option Status
status_of id [] = none
status_of id (o ∷ os) = if str_eq o.id id then some o.status else status_of id os

final-not-allowed : (s t : Status) → is_pending s ≡ false → allowed s t ≡ false
final-not-allowed s t h = ground arith

some-injective : {s t : Status} → ◌≡◌ {A = Option Status} (some s) (some t) → s ≡ t
some-injective h = cc

none-ne-some : {s : Status} → ◌≡◌ {A = Option Status} none (some s) → ⊥
none-ne-some h = cc

module _ (id : String) (s : Status) (final : is_pending s ≡ false) where
  -- The row with the key has the status.
  abbrev pub Has : List Order → Type 0
  Has os = status_of id os ≡ some s

  absent-Has : (os : List Order) → has_order id os ≡ false → Has os → ⊥
  absent-Has [] absent h = none-ne-some h
  absent-Has (o ∷ os) absent h =
      let (other, below) = or_false (str_eq o.id id) (has_order id os) absent in
      absent-Has os below (rw other at h)

  pub Update-Has :
      (key : String) (condition : Order → Bool) (status : Status)
      → ((o : Order) → condition o ≡ true → allowed o.status status ≡ true)
      → {os rest : List Order} {found : Option Order} → Update key condition status os found rest
      → Has os
      → Has rest
  Update-Has key condition status moves missing h = h
  Update-Has key condition status moves (here o os same takes) h =
      elim (Bool-cases (str_eq o.id id)) [
        | inl mine ↦
            let held : o.status ≡ s = some-injective (rw mine at h) in
            absurd (
              true-ne-false (
                sym (moves o takes)
                ∙ ap (λ t. allowed t status) held
                ∙ final-not-allowed s status final))
        | inr other ↦ rw other (rw other at h)
      ]
  Update-Has key condition status moves (refused o os same) h = h
  Update-Has key condition status moves (later o other below) h =
      elim (Bool-cases (str_eq o.id id)) [
        | inl mine ↦ rw mine (rw mine at h)
        | inr apart ↦ rw apart (Update-Has key condition status moves below (rw apart at h))
      ]

  after_find-Has :
      (key : String) (input : TicketReservationInput) (ticket : Ticket) (db : Database)
      (found : Option Order)
      → Has db.orders
      → Has (after_find key input ticket db found).1.orders
  after_find-Has key input ticket db (some existing) h =
      elim (Bool-cases
        (str_eq existing.user_id input.user_id && not (is_complete existing.status))) [
          | inl own ↦ rw own h
          | inr other ↦ rw other h
        ]
  after_find-Has key input ticket db none h = elim (Bool-cases (has_order key db.orders)) [
    | inl taken ↦ rw taken h
    | inr free ↦ elim (Bool-cases (str_eq key id)) [
      | inl mine ↦ absurd (
          absent-Has db.orders
            (ap (λ k. has_order k db.orders) (sym ((eq_iff key id).0 mine)) ∙ free) h)
      | inr apart ↦ rw (free, apart) h
    ]
  ]

  pub after_ticket-Has :
      (now : ℕ) (key : String) (input : TicketReservationInput) (db : Database)
      (found : Option Ticket)
      → Has db.orders
      → Has (after_ticket now key input db found).1.orders
  after_ticket-Has now key input db none h = h
  after_ticket-Has now key input db (some ticket) h =
      after_find-Has key input ticket db (find_blocking_order now ticket.id db.orders) h

  pub cancel_found-Has :
      (u : Option Order × List Order) (db : Database)
      → Has u.1
      → Has db.orders
      → Has (cancel_found u db).orders
  cancel_found-Has (none, orders) db after h = h
  cancel_found-Has (some o, orders) db after h = after

  pub after_cancel-Has :
      (key user_id : String) (u : Option Order × List Order) (db : Database)
      → Has u.1
      → Has db.orders
      → Has (after_cancel key user_id db u).1.orders
  after_cancel-Has key user_id (none, orders) db after h = h
  after_cancel-Has key user_id (some o, orders) db after h = after

  pub once-Has :
      (event_id : String) (apply : Database → Database) (db : Database)
      → ((d : Database) → Has d.orders → Has (apply d).orders)
      → Has db.orders
      → Has (once event_id apply db).orders
  once-Has event_id apply db keeps h = elim (Bool-cases (contains db.processed_events event_id)) [
    | inl seen ↦ rw seen h
    | inr new ↦ rw new (keeps (record db { processed_events = event_id ∷ db.processed_events }) h)
  ]
