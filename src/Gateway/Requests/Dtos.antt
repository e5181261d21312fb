-- ===== src/Gateway/Requests/Dtos.antt =====
-- The classes of request bodies: the files of apps/api-gateway/src/identity/dtos, orders/dtos,
-- payments/dtos and tickets/dtos. A class is its properties with their decorators, and how a
-- handler reads them; a property of another type than the class declares is read as empty, which
-- no accepted body has where the decorators test the type.
use polyglot_ticketing_v.Base.{ℕ, String, pos, some, Option, [], ◌∷◌, lookup}
use polyglot_ticketing_v.Platform.Numbers.{max_safe_integer, whole}
use polyglot_ticketing_v.Platform.ClassValidator.{
  BodyValue, text, number, Body, Decorators, Rules, is_string, is_not_empty, is_email, is_int,
  is_uuid, length, min, max,
}
use polyglot_ticketing_v.Gateway.Tickets.{TicketBody}
use polyglot_ticketing_v.Identity.Service.{SignInRequest, SignUpRequest}

abbrev pub email_decorators : Decorators
email_decorators = (is_email, "Email must be valid") ∷ []

abbrev pub password_decorators : Decorators
password_decorators =
    (is_string, "Password must be a string")
    ∷ (length 8 128, "Password must be between 8 and 128 characters")
    ∷ []

abbrev pub sign_in_dto : Rules
sign_in_dto = ("email", email_decorators) ∷ ("password", password_decorators) ∷ []

abbrev pub sign_up_dto : Rules
sign_up_dto =
    ("name", (is_string, "Name must be a string") ∷ (is_not_empty, "You must supply a name") ∷ [])
    ∷ ("email", email_decorators)
    ∷ ("password", password_decorators)
    ∷ []

abbrev pub verify_email_dto : Rules
verify_email_dto = ("token", (is_not_empty, "You must supply a verification token") ∷ []) ∷ []

abbrev pub create_order_dto : Rules
create_order_dto = ("ticketId", (is_uuid "4", "Ticket ID must be a valid UUID.") ∷ []) ∷ []

abbrev pub create_payment_dto : Rules
create_payment_dto =
    (
      "orderId",
      (is_not_empty, "Order ID is required.")
          ∷ (is_uuid "4", "Order ID must be a valid UUID.")
          ∷ [],
    )
    ∷ []

abbrev pub max_ticket_price : ℕ
max_ticket_price = max_safe_integer

abbrev pub create_ticket_dto : Rules
create_ticket_dto =
    ("title", (is_string, "Title must be a string") ∷ (is_not_empty, "Title is required.") ∷ [])
    ∷ (
      "price",
      (is_int, "Price must be an integer.")
          ∷ (min 1, "Price must be a positive integer.")
          ∷ (max max_ticket_price, "Price exceeds the maximum supported amount.")
          ∷ [],
    )
    ∷ []

-- `class UpdateTicketDto extends CreateTicketDto {}`
abbrev pub update_ticket_dto : Rules
update_ticket_dto = create_ticket_dto

abbrev pub text_of : Option BodyValue → String
text_of (some (text s)) = s
text_of _ = ""

abbrev pub price_of : Option BodyValue → ℕ
price_of (some (number (whole (pos n)))) = n
price_of _ = 0

abbrev pub read_sign_in : Body → SignInRequest
read_sign_in body = record {
  email = text_of (lookup "email" body);
  password = text_of (lookup "password" body);
}

abbrev pub read_sign_up : Body → SignUpRequest
read_sign_up body = record {
  email = text_of (lookup "email" body);
  name = text_of (lookup "name" body);
  password = text_of (lookup "password" body);
}

abbrev pub read_ticket_id : Body → String
read_ticket_id body = text_of (lookup "ticketId" body)

abbrev pub read_order_id : Body → String
read_order_id body = text_of (lookup "orderId" body)

abbrev pub read_ticket : Body → TicketBody
read_ticket body = record {
  title = text_of (lookup "title" body);
  price = price_of (lookup "price" body);
}
