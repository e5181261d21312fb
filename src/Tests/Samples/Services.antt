-- ===== src/Tests/Samples/Services.antt =====
-- Services that answer one user, and the requests of that user.
use polyglot_ticketing_v.Base.{
  Bool-cases, inl, inr, subst, ◌≡◌, ℕ, pos, String, true, none, some, List, [], ◌∷◌, Result, ok,
  err, str_eq, if◌then◌else◌,
}
use polyglot_ticketing_v.Value.{Value, obj, end, entry, num}
use polyglot_ticketing_v.Value.Json.{Json}
use polyglot_ticketing_v.Contracts.OrderStatus.{OrderStatus}
use polyglot_ticketing_v.Platform.Metadata.{MetadataValue, text}
use polyglot_ticketing_v.Gateway.Identity.Headers.{RequestHeaders, absent, one}
use polyglot_ticketing_v.Gateway.Identity.Metadata.Forwarding.{AllLegal}
use polyglot_ticketing_v.Gateway.Identity.AuthService.{IdentityGrpcService}
use polyglot_ticketing_v.Gateway.Orders.{
  OrdersGrpcService, OrderGrpcResponse, OrderRequest, OrderResponse,
}
use polyglot_ticketing_v.Gateway.Orders
use polyglot_ticketing_v.Gateway.Payments.{PaymentsGrpcService}
use polyglot_ticketing_v.Gateway.Tickets.{TicketsGrpcService}
use polyglot_ticketing_v.Identity.Service.{CurrentUserResponse}
use polyglot_ticketing_v.Tests.Samples.{metadata}

-- JSON that knows one document.
abbrev pub json_of : Value → Json
json_of document = record { parse = λ s. some document; stringify = λ v. "{...}" }

abbrev pub failure : ℕ → Value
failure code = obj (entry "code" (num (pos code)) end)

abbrev pub session_cookie : String
session_cookie = "better-auth.session_token=abc"

abbrev pub ada : CurrentUserResponse
ada = record { user_id = "u1"; name = "Ada"; email = "ada@example.com"; email_verified = true }

abbrev pub user_of : List MetadataValue → Result Value CurrentUserResponse
user_of (text cookie ∷ []) = if str_eq cookie session_cookie then ok ada else err (failure 16)
user_of _ = err (failure 16)

-- An identity service with one session.
abbrev pub identity : IdentityGrpcService metadata
identity = record {
  sign_up = λ request. err (failure 13);
  sign_in = λ request m. err (failure 16);
  sign_out = λ m. ok tt;
  current_user = λ m. user_of (m "cookie");
  verify_email = λ token. ok true;
}

-- A request with one header.
abbrev pub with_header : String → String → RequestHeaders
with_header name value key = if str_eq key name then one value else absent

abbrev pub with_cookie : RequestHeaders
with_cookie = with_header "cookie" session_cookie

one-injective : {v w : String} → one v ≡ one w → v ≡ w
one-injective e = cc

absent-ne-one : {v : String} → absent ≡ one v → ⊥
absent-ne-one e = cc

pub with_header-AllLegal :
    (name value : String)
    → metadata.is_legal value ≡ true
    → AllLegal metadata (with_header name value)
with_header-AllLegal name value legal key v h = elim (Bool-cases (str_eq key name)) [
  | inl here ↦
      subst (λ t. metadata.is_legal t ≡ true) (one-injective (rw (here, if◌then◌else◌) at h)) legal
  | inr other ↦ absurd (absent-ne-one (rw (other, if◌then◌else◌) at h))
]

abbrev pub without_cookie : RequestHeaders
without_cookie name = absent

abbrev pub order : String → OrderStatus → OrderGrpcResponse
order id status = record {
  expires_at = record { seconds = pos 900; nanos = pos 0 };
  id = id;
  status = status;
  ticket_id = "t1";
  user_id = "u1";
}

abbrev pub shown : String → OrderResponse
shown id = record {
  expires_at = "1970-01-01T00:00:00.000Z";
  id = id;
  status = Orders.created;
  ticket_id = "t1";
  user_id = "u1";
}

-- An orders service that has the orders of one user, and gives another user's request the answer
-- `foreign`.
abbrev pub orders_with : Value → List OrderGrpcResponse → OrdersGrpcService
orders_with foreign os = record {
  cancel_order = λ r.
      if str_eq r.user_id "u1" then ok (order r.order_id OrderStatus.canceled) else err foreign;
  create_order = λ r.
      if str_eq r.user_id "u1"
      then ok (record { created = true; order = order "o1" OrderStatus.created })
      else err foreign;
  get_order =
      λ r. if str_eq r.user_id "u1" then ok (order r.order_id OrderStatus.created) else err foreign;
  list_orders = λ user_id. if str_eq user_id "u1" then ok (some os) else err foreign;
}

abbrev pub payments : PaymentsGrpcService
payments = record { create_payment = λ r. err (failure 5) }

abbrev pub tickets : TicketsGrpcService
tickets = record {
  create_ticket = λ r. err (failure 3);
  update_ticket = λ r. err (failure 5);
  get_ticket = λ id. err (failure 5);
  list_tickets = ok none;
}
