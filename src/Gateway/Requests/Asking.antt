-- ===== src/Gateway/Requests/Asking.antt =====
-- What the handlers ask of the services behind the gateway, from bodies that are not trusted.
use polyglot_ticketing_v.Base.{
  ℕ, ◌≤◌, String, Bool, true, ◌&&◌, ◌≡◌, ◌≢◌, refl, sym, ap, subst, ◌∙◌, Result, ok, err, ◌>>=◌,
  all, contains, lookup, arith,
}
use polyglot_ticketing_v.Value.{Value}
use polyglot_ticketing_v.Value.Json.{Json}
use polyglot_ticketing_v.Platform.Numbers.{max_safe_integer}
use polyglot_ticketing_v.Platform.Metadata.{MetadataApi}
use polyglot_ticketing_v.Platform.Dates.{DateApi}
use polyglot_ticketing_v.Platform.ClassValidator.{
  Body, Rules, ClassValidator, keys, is_uuid, is_not_empty,
}
use polyglot_ticketing_v.Gateway.Errors.{Thrown}
use polyglot_ticketing_v.Gateway.Identity.Headers.{RequestHeaders}
use polyglot_ticketing_v.Gateway.Identity.AuthService.{
  AuthenticatedUser, IdentityGrpcService, current_user,
}
use polyglot_ticketing_v.Gateway.Identity.Session.Laws.{with_session-agree}
use polyglot_ticketing_v.Gateway.Orders.{OrdersGrpcService, create_order}
use polyglot_ticketing_v.Gateway.Payments.{PaymentsGrpcService, create_payment}
use polyglot_ticketing_v.Gateway.Tickets.{TicketsGrpcService, create_ticket, update_ticket}
use polyglot_ticketing_v.Gateway.Requests.{receive}
use polyglot_ticketing_v.Gateway.Requests.Dtos.{
  create_order_dto, create_payment_dto, create_ticket_dto, update_ticket_dto, read_ticket_id,
  read_order_id, read_ticket, text_of,
}
use polyglot_ticketing_v.Gateway.Requests.Acceptance.{receive-ok_iff, receive-IsTicket_iff}
use polyglot_ticketing_v.Gateway.Requests.Routes.{
  with_body, post_order_body, post_payment_body, post_ticket_body, put_ticket_body,
}

single : (a f : Bool) → (((a && true) && true) && f) ≡ true → a ≡ true
single a f h = ground arith

double : (a b f : Bool) → (((a && (b && true)) && true) && f) ≡ true → b ≡ true
double a b f h = ground arith

-- An id that is handed on has the format of a UUID of version 4.
receive-order_uuid :
    (v : ClassValidator) (body : Body) (id : String)
    → receive v create_order_dto read_ticket_id body ≡ ok id
    → v.uuid_format "4" id ≡ true
receive-order_uuid v body id h =
    let (accepted, reads) = (receive-ok_iff v create_order_dto read_ticket_id body id).0 h in
    let (s, is, format) = (v.passes-is_uuid "4" (lookup "ticketId" body)).0 (
      single (v.passes (is_uuid "4") (lookup "ticketId" body))
        (all (contains (keys create_order_dto)) (keys body)) accepted) in
    subst (λ t. v.uuid_format "4" t ≡ true) (sym (ap text_of is) ∙ reads) format

receive-payment_uuid :
    (v : ClassValidator) (body : Body) (id : String)
    → receive v create_payment_dto read_order_id body ≡ ok id
    → v.uuid_format "4" id ≡ true
receive-payment_uuid v body id h =
    let (accepted, reads) = (receive-ok_iff v create_payment_dto read_order_id body id).0 h in
    let (s, is, format) = (v.passes-is_uuid "4" (lookup "orderId" body)).0 (
      double (v.passes is_not_empty (lookup "orderId" body))
        (v.passes (is_uuid "4") (lookup "orderId" body))
        (all (contains (keys create_payment_dto)) (keys body)) accepted) in
    subst (λ t. v.uuid_format "4" t ≡ true) (sym (ap text_of is) ∙ reads) format

-- Two continuations that agree on what the call returns give the same chain.
>>=-agree {ℓ κ μ} :
    {E : Type ℓ} {A : Type κ} {B : Type μ} (m : Result E A) (f g : A → Result E B)
    → ((a : A) → m ≡ ok a → f a ≡ g a)
    → (m >>= f) ≡ (m >>= g)
>>=-agree (ok a) f g same = same a refl
>>=-agree (err e) f g same = refl

-- Services that give valid requests in the name of one user the same answers.
pub record AgreeOnOrders (v : ClassValidator) (user_id : String) (o p : OrdersGrpcService)
    : Type 0 where
  pub create :
      (id : String)
      → v.uuid_format "4" id ≡ true
      → o.create_order (record { ticket_id = id; user_id = user_id })
        ≡ p.create_order (record { ticket_id = id; user_id = user_id })

pub record AgreeOnPayments (v : ClassValidator) (user_id : String) (o p : PaymentsGrpcService)
    : Type 0 where
  pub create :
      (id : String)
      → v.uuid_format "4" id ≡ true
      → o.create_payment (record { order_id = id; user_id = user_id })
        ≡ p.create_payment (record { order_id = id; user_id = user_id })

pub record AgreeOnTickets (user_id : String) (o p : TicketsGrpcService) : Type 0 where
  pub create :
      (title : String) (price : ℕ)
      → title ≢ ""
      → 1 ≤ price
      → price ≤ max_safe_integer
      → o.create_ticket (record { title = title; price = price; user_id = user_id })
        ≡ p.create_ticket (record { title = title; price = price; user_id = user_id })
  pub update :
      (id title : String) (price : ℕ)
      → title ≢ ""
      → 1 ≤ price
      → price ≤ max_safe_integer
      → o.update_ticket (record { id = id; title = title; price = price; user_id = user_id })
        ≡ p.update_ticket (record { id = id; title = title; price = price; user_id = user_id })

module _ (v : ClassValidator) (grpc : MetadataApi) (json : Json) (unauthorized : Value)
    (identity : IdentityGrpcService grpc) (headers : RequestHeaders) (user : AuthenticatedUser)
    (found : current_user grpc json identity headers ≡ ok user) where
  with_body-agree {ℓ κ} :
      {A : Type ℓ} {B : Type κ} (rules : Rules) (read : Body → A)
      (f g : A → AuthenticatedUser → Result Thrown B) (body : Body)
      → ((a : A) → receive v rules read body ≡ ok a → f a user ≡ g a user)
      → with_body v grpc json unauthorized identity headers rules read f body
        ≡ with_body v grpc json unauthorized identity headers rules read g body
  unfolding with_body
  with_body-agree rules read f g body same =
      with_session-agree grpc json unauthorized identity headers _ _ user found
        (>>=-agree (receive v rules read body) (λ a. f a user) (λ a. g a user) same)

-- Behind a session, the services are asked in the name of its user alone, and only with what the
-- checks let through: orders and payments for an id in the format of a UUID of version 4, tickets
-- for a title that is not empty and a price from 1 to 2^53 - 1. Two services that answer those
-- requests alike give the routes the same results, whatever the body.
pub routes_ask_checked :
    (v : ClassValidator) (grpc : MetadataApi) (json : Json) (unauthorized : Value)
    (identity : IdentityGrpcService grpc) (headers : RequestHeaders) (user : AuthenticatedUser)
    (dates : DateApi) (orders other_orders : OrdersGrpcService)
    (payments other_payments : PaymentsGrpcService) (tickets other_tickets : TicketsGrpcService)
    (id : String) (body : Body)
    → current_user grpc json identity headers ≡ ok user
    → AgreeOnOrders v user.id orders other_orders
    → AgreeOnPayments v user.id payments other_payments
    → AgreeOnTickets user.id tickets other_tickets
    → (post_order_body v grpc json unauthorized identity headers dates orders body
        ≡ post_order_body v grpc json unauthorized identity headers dates other_orders body)
      × (post_payment_body v grpc json unauthorized identity headers payments body
          ≡ post_payment_body v grpc json unauthorized identity headers other_payments body)
      × (post_ticket_body v grpc json unauthorized identity headers tickets body
          ≡ post_ticket_body v grpc json unauthorized identity headers other_tickets body)
      × (put_ticket_body v grpc json unauthorized identity headers tickets id body
          ≡ put_ticket_body v grpc json unauthorized identity headers other_tickets id body)
unfolding post_order_body post_payment_body post_ticket_body put_ticket_body create_order
    create_payment create_ticket update_ticket
routes_ask_checked v grpc json unauthorized identity headers user dates orders other_orders payments
      other_payments tickets other_tickets id body found on_orders on_payments on_tickets =
    (
      with_body-agree v grpc json unauthorized identity headers user found create_order_dto
          read_ticket_id _ _ body
          λ ticket_id taken.
            rw (on_orders.create ticket_id (receive-order_uuid v body ticket_id taken)),
      with_body-agree v grpc json unauthorized identity headers user found create_payment_dto
          read_order_id _ _ body
          λ order_id taken.
            rw (on_payments.create order_id (receive-payment_uuid v body order_id taken)),
      with_body-agree v grpc json unauthorized identity headers user found create_ticket_dto
          read_ticket _ _ body
          λ dto taken.
            let t = (receive-IsTicket_iff v body dto).0 taken in
            rw (on_tickets.create dto.title dto.price t.titled t.positive t.bounded),
      with_body-agree v grpc json unauthorized identity headers user found update_ticket_dto
          read_ticket _ _ body
          λ dto taken.
            let t = (receive-IsTicket_iff v body dto).0 taken in
            rw (on_tickets.update id dto.title dto.price t.titled t.positive t.bounded),
    )
