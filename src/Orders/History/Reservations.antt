-- ===== src/Orders/History/Reservations.antt =====
-- At most one open order for each ticket.
use polyglot_ticketing_v.Base.{
  ℕ, suc, ◌≤◌, String, ◌≡◌, refl, sym, ap, subst, ◌∙◌, Bool, true, false, ◌&&◌, Bool-cases, inl,
  inr, not, Option, none, some, List, [], ◌∷◌, ltb, str_eq, eq_iff, contains, if◌then◌else◌, arith,
}
use polyglot_ticketing_v.Orders.{
  Status, Ticket, Order, TicketReservationInput, Database, is_complete,
}
use polyglot_ticketing_v.Orders.Repository.{
  update_order, find_ticket, find_blocking_order, blocks, is_open, has_order, after_find,
  after_ticket, after_cancel, once, cancel_found,
}
use polyglot_ticketing_v.Orders.Repository.Updates.{
  moved, allowed, Update, missing, here, refused, later, update_order-Update,
}
use polyglot_ticketing_v.Orders.History.{open_orders}

some-ne-none {ℓ} : {A : Type ℓ} {a : A} → ◌≡◌ {A = Option A} (some a) none → ⊥
some-ne-none h = cc

some-injective {ℓ} : {A : Type ℓ} {a b : A} → ◌≡◌ {A = Option A} (some a) (some b) → a ≡ b
some-injective h = cc

-- A transition keeps an order from opening again.
moved-closed :
    (now : ℕ) (status : Status) (o : Order)
    → allowed o.status status ≡ true
    → is_open now o ≡ false
    → is_open now (moved status o) ≡ false
moved-closed now status o change closed = ground arith

pub count-less :
    (here' here'' : Bool) (m n : ℕ)
    → m ≤ n
    → (here'' ≡ false → here' ≡ false)
    → (if here' then suc m else m) ≤ (if here'' then suc n else n)
count-less a true m n h less = ground arith
count-less a false m n h less = rw (less refl) h

pub and-closed : (a x y : Bool) → (x ≡ false → y ≡ false) → (a && x) ≡ false → (a && y) ≡ false
and-closed true x y less h = less h
and-closed false x y less h = refl

module _ (now : ℕ) (ticket_id id : String) (condition : Order → Bool) (status : Status)
    (moves : (o : Order) → condition o ≡ true → allowed o.status status ≡ true) where
  open_orders-Update :
      {os rest : List Order} {found : Option Order}
      → Update id condition status os found rest
      → open_orders now ticket_id rest ≤ open_orders now ticket_id os
  open_orders-Update missing = omega arith
  open_orders-Update (here o os key takes) =
      count-less _ _ (open_orders now ticket_id os) (open_orders now ticket_id os) (omega arith) (
        and-closed (str_eq o.ticket_id ticket_id) (is_open now o) (is_open now (moved status o))
          (moved-closed now status o (moves o takes)))
  open_orders-Update (refused o os key) = omega arith
  open_orders-Update (later o key below) = count-less _ _ _ _ (open_orders-Update below) (λ h. h)

not-blocking :
    (now : ℕ) (ticket_id : String) (o : Order)
    → blocks now ticket_id o ≡ false
    → (str_eq o.ticket_id ticket_id && is_open now o) ≡ false
not-blocking now ticket_id o h = ground arith

-- Where no order blocks, none is open.
find_blocking_order-none :
    (now : ℕ) (ticket_id : String) (os : List Order)
    → find_blocking_order now ticket_id os ≡ none
    → open_orders now ticket_id os ≡ 0
unfolding find_blocking_order
find_blocking_order-none now ticket_id [] h = refl
find_blocking_order-none now ticket_id (o ∷ os) h = elim (Bool-cases (blocks now ticket_id o)) [
  | inl blocking ↦ absurd (some-ne-none (rw blocking at h))
  | inr free ↦
      rw (not-blocking now ticket_id o free)
        (find_blocking_order-none now ticket_id os (rw free at h))
]

find_ticket-id :
    (id : String) (ts : List Ticket) (t : Ticket) → find_ticket id ts ≡ some t → t.id ≡ id
find_ticket-id id [] t h = cc
find_ticket-id id (u ∷ ts) t h = elim (Bool-cases (str_eq u.id id)) [
  | inl same ↦
      sym (ap (λ (x : Ticket). x.id) (some-injective (rw same at h))) ∙ (eq_iff u.id id).0 same
  | inr other ↦ find_ticket-id id ts t (rw other at h)
]

-- No ticket has more than one open order.
abbrev pub Limited : ℕ → Database → Type 0
Limited now db = (ticket_id : String) → open_orders now ticket_id db.orders ≤ 1

inserted :
    (same pending : Bool) (n : ℕ)
    → (same ≡ true → n ≡ 0)
    → n ≤ 1
    → (if same && pending then suc n else n) ≤ 1
inserted true pending n none_open limit = ground (arith, none_open refl)
inserted false pending n none_open limit = limit

module _ (now : ℕ) where
  after_find-Limited :
      (id : String) (input : TicketReservationInput) (ticket : Ticket) (db : Database)
      (found : Option Order)
      → ticket.id ≡ input.ticket_id
      → find_blocking_order now ticket.id db.orders ≡ found
      → Limited now db
      → Limited now (after_find id input ticket db found).1
  after_find-Limited id input ticket db (some existing) named searched h ticket_id =
      elim (Bool-cases
        (str_eq existing.user_id input.user_id && not (is_complete existing.status))) [
          | inl own ↦ rw own (h ticket_id)
          | inr other ↦ rw other (h ticket_id)
        ]
  after_find-Limited id input ticket db none named searched h ticket_id =
      elim (Bool-cases (has_order id db.orders)) [
        | inl taken ↦ rw taken (h ticket_id)
        | inr free ↦ rw free (
            inserted (str_eq input.ticket_id ticket_id) (ltb now input.expires_at)
              (open_orders now ticket_id db.orders)
              (λ same.
                let at : ticket.id ≡ ticket_id =
                  named ∙ (eq_iff input.ticket_id ticket_id).0 same in
                subst (λ t. open_orders now t db.orders ≡ 0) at
                  (find_blocking_order-none now ticket.id db.orders searched))
              (h ticket_id))
      ]

  pub after_ticket-Limited :
      (id : String) (input : TicketReservationInput) (db : Database) (found : Option Ticket)
      → find_ticket input.ticket_id db.tickets ≡ found
      → Limited now db
      → Limited now (after_ticket now id input db found).1
  after_ticket-Limited id input db none searched h = h
  after_ticket-Limited id input db (some ticket) searched h =
      after_find-Limited id input ticket db _
        (find_ticket-id input.ticket_id db.tickets ticket searched) refl h

  -- A transition on any row keeps the limit.
  pub Update-Limited :
      (id : String) (condition : Order → Bool) (status : Status) (db : Database)
      → ((o : Order) → condition o ≡ true → allowed o.status status ≡ true)
      → (ticket_id : String) → open_orders now ticket_id db.orders ≤ 1
      → open_orders now ticket_id (update_order id condition status db.orders).1 ≤ 1
  Update-Limited id condition status db moves ticket_id limit = omega (
    arith,
    limit,
    open_orders-Update now ticket_id id condition status moves
        (update_order-Update id condition status db.orders),
  )

  pub cancel_found-Limited :
      (u : Option Order × List Order) (db : Database)
      → ((ticket_id : String) → open_orders now ticket_id u.1 ≤ 1)
      → Limited now db
      → Limited now (cancel_found u db)
  cancel_found-Limited (none, orders) db after h = h
  cancel_found-Limited (some o, orders) db after h = after

  pub after_cancel-Limited :
      (id user_id : String) (u : Option Order × List Order) (db : Database)
      → ((ticket_id : String) → open_orders now ticket_id u.1 ≤ 1)
      → Limited now db
      → Limited now (after_cancel id user_id db u).1
  after_cancel-Limited id user_id (none, orders) db after h = h
  after_cancel-Limited id user_id (some o, orders) db after h = after

  pub once-Limited :
      (event_id : String) (apply : Database → Database) (db : Database)
      → ((d : Database) → Limited now d → Limited now (apply d))
      → Limited now db
      → Limited now (once event_id apply db)
  once-Limited event_id apply db keeps h =
      elim (Bool-cases (contains db.processed_events event_id)) [
        | inl seen ↦ λ ticket_id. rw seen (h ticket_id)
        | inr new ↦ λ ticket_id.
            rw new
              (keeps (record db { processed_events = event_id ∷ db.processed_events }) h ticket_id)
      ]
