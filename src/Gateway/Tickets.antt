-- ===== src/Gateway/Tickets.antt =====
-- The tickets routes: apps/api-gateway/src/tickets/tickets.service.ts and tickets.controller.ts.
use polyglot_ticketing_v.Base.{
  ℕ, String, none, some, Option, List, [], default_to, Result, ok, ◌>>=◌,
}
use polyglot_ticketing_v.Value.{Value}
use polyglot_ticketing_v.Value.Json.{Json}
use polyglot_ticketing_v.Platform.Metadata.{MetadataApi}
use polyglot_ticketing_v.Gateway.Errors.{Thrown}
use polyglot_ticketing_v.Gateway.Identity.Headers.{RequestHeaders}
use polyglot_ticketing_v.Gateway.Identity.AuthService.{IdentityGrpcService, guarded, invalid_item}
use polyglot_ticketing_v.Gateway.Identity.Session.{with_session}

-- A price is a positive whole number, checked by the request's validation.
pub record Ticket : Type 0 where
  pub id : String
  pub title : String
  pub price : ℕ
  pub user_id : String

-- The body of the requests that create or update a ticket.
pub record TicketBody : Type 0 where
  pub title : String
  pub price : ℕ

pub record CreateTicketRequest : Type 0 where
  pub title : String
  pub price : ℕ
  pub user_id : String

pub record UpdateTicketRequest : Type 0 where
  pub id : String
  pub title : String
  pub price : ℕ
  pub user_id : String

pub record TicketsGrpcService : Type 0 where
  pub create_ticket : CreateTicketRequest → Result Value Ticket
  pub update_ticket : UpdateTicketRequest → Result Value Ticket
  pub get_ticket : String → Result Value Ticket
  pub list_tickets : Result Value (Option (List Ticket))

module _ (grpc : MetadataApi) (json : Json) (unauthorized : Value)
    (identity : IdentityGrpcService grpc) (tickets : TicketsGrpcService) where
  unfoldable pub create_ticket : TicketBody → String → Result Thrown Ticket
  create_ticket request user_id =
      guarded grpc json identity (some (invalid_item "Ticket data is invalid.")) (
        tickets.create_ticket
          (record { title = request.title; price = request.price; user_id = user_id }))

  unfoldable pub list_tickets : Result Thrown (List Ticket)
  list_tickets =
      guarded grpc json identity none
        do response ← tickets.list_tickets; ok (default_to [] response)

  unfoldable pub update_ticket : String → TicketBody → String → Result Thrown Ticket
  update_ticket id request user_id =
      guarded grpc json identity (some (invalid_item "Ticket data is invalid.")) (
        tickets.update_ticket
          (record { id = id; title = request.title; price = request.price; user_id = user_id }))

  unfoldable pub get_ticket : String → Result Thrown Ticket
  get_ticket id = guarded grpc json identity none (tickets.get_ticket id)

  -- The controller: creating and updating need a session, reading does not.
  unfoldable pub put_ticket : RequestHeaders → String → TicketBody → Result Thrown Ticket
  put_ticket headers id body =
      with_session grpc json unauthorized identity headers λ user. update_ticket id body user.id

  unfoldable pub post_ticket : RequestHeaders → TicketBody → Result Thrown Ticket
  post_ticket headers body =
      with_session grpc json unauthorized identity headers λ user. create_ticket body user.id
