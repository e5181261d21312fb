-- ===== src/Gateway/Orders/Replies.antt =====
-- What the orders routes answer: apps/api-gateway/src/orders/orders.service.ts.
use polyglot_ticketing_v.Base.{
  String, ◌≡◌, refl, sym, ap, ◌∙◌, >>=-eq-ok, ◌↔◌, not, Bool, true, false, Option, none, some, List,
  [], ◌∷◌, any, default_to, Result, ok, err, ◌>>=◌, arith,
}
use polyglot_ticketing_v.Base.Text.{is_some}
use polyglot_ticketing_v.Value.{Value, number_property}
use polyglot_ticketing_v.Value.Json.{Json}
use polyglot_ticketing_v.Contracts.OrderStatus.{OrderStatus}
use polyglot_ticketing_v.Platform.Metadata.{MetadataApi}
use polyglot_ticketing_v.Platform.Dates.{DateApi}
use polyglot_ticketing_v.Gateway.Errors.{ErrorItem, service_unavailable}
use polyglot_ticketing_v.Gateway.Errors.Backend.{throw_gateway_grpc_error-uncoded}
use polyglot_ticketing_v.Gateway.Identity.AuthService.{IdentityGrpcService, guarded}
use polyglot_ticketing_v.Gateway.Dates.{to_date, iso_string, or_range_error}
use polyglot_ticketing_v.Gateway.Orders.{
  RestStatus, created, canceled, awaiting_payment, complete, to_order_status, OrderGrpcResponse,
  OrderResponse, OrdersGrpcService, to_order_response, to_order_responses, unable_item, list_orders,
}

abbrev pub is_unsupported : OrderStatus → Bool
is_unsupported OrderStatus.unspecified = true
is_unsupported (OrderStatus.unrecognized n) = true
is_unsupported _ = false

-- The call throws a value without a gRPC code; it throws one with a code.
abbrev is_uncoded {ℓ} : {A : Type ℓ} → Result Value A → Bool
is_uncoded (ok a) = false
is_uncoded (err e) = not (is_some (number_property "code" e))

abbrev is_coded {ℓ} : {A : Type ℓ} → Result Value A → Bool
is_coded (ok a) = false
is_coded (err e) = is_some (number_property "code" e)

some-injective {ℓ} : {A : Type ℓ} {a b : A} → ◌≡◌ {A = Option A} (some a) (some b) → a ≡ b
some-injective e = cc

ok-injective {ℓ} : {A : Type ℓ} {a b : A} → ◌≡◌ {A = Result Value A} (ok a) (ok b) → a ≡ b
ok-injective e = cc

module _ (dates : DateApi) where
  to_order_response-is_coded :
      (o : OrderGrpcResponse) → is_coded (to_order_response dates o) ≡ false
  unfolding to_order_response
  to_order_response-is_coded o = ground arith

  to_order_response-unsupported :
      (o : OrderGrpcResponse)
      → is_unsupported o.status ≡ true
      → is_uncoded (to_order_response dates o) ≡ true
  unfolding to_order_response
  to_order_response-unsupported o h = ground arith

  to_order_responses-cons :
      (o : OrderGrpcResponse) (os : List OrderGrpcResponse)
      → to_order_responses dates (o ∷ os) ≡ (
          to_order_response dates o >>= λ first.
          to_order_responses dates os >>= λ rest. ok (first ∷ rest))
  unfolding to_order_responses
  to_order_responses-cons o os = refl

  to_order_responses-unsupported :
      (os : List OrderGrpcResponse)
      → any (λ o. is_unsupported o.status) os ≡ true
      → is_uncoded (to_order_responses dates os) ≡ true
  to_order_responses-unsupported [] h = cc
  to_order_responses-unsupported (o ∷ os) h = rw (to_order_responses-cons o os) (
      ground (
        arith,
        to_order_response-is_coded o,
        to_order_response-unsupported o,
        to_order_responses-unsupported os,
      ))

  -- The status that the client reads.
  abbrev pub shown_status : OrderStatus → Option RestStatus
  shown_status OrderStatus.created = some created
  shown_status OrderStatus.canceled = some canceled
  shown_status OrderStatus.awaiting_payment = some awaiting_payment
  shown_status OrderStatus.complete = some complete
  shown_status _ = none

  -- The answer shows the order: its ids, its status, and its expiry as a text.
  pub record Shows (o : OrderGrpcResponse) (r : OrderResponse) : Type 0 where
    pub id : r.id ≡ o.id
    pub ticket_id : r.ticket_id ≡ o.ticket_id
    pub user_id : r.user_id ≡ o.user_id
    pub status : shown_status o.status ≡ some r.status
    pub expires_at : dates.to_iso_string (to_date dates o.expires_at) ≡ some r.expires_at

  -- The orders of the answer are those of the service, each shown, in order.
  abbrev pub Shown : List OrderGrpcResponse → List OrderResponse → Type 0
  Shown [] [] = Unit
  Shown (o ∷ os) (r ∷ rs) = Shows o r × Shown os rs
  Shown _ _ = ⊥

  status-shown :
      (s : OrderStatus) (r : RestStatus) → to_order_status s ≡ ok r → shown_status s ≡ some r
  unfolding to_order_status
  status-shown OrderStatus.created r h = ap some (ok-injective h)
  status-shown OrderStatus.canceled r h = ap some (ok-injective h)
  status-shown OrderStatus.awaiting_payment r h = ap some (ok-injective h)
  status-shown OrderStatus.complete r h = ap some (ok-injective h)
  status-shown OrderStatus.unspecified r h = cc
  status-shown (OrderStatus.unrecognized n) r h = cc

  shown-status :
      (s : OrderStatus) (r : RestStatus) → shown_status s ≡ some r → to_order_status s ≡ ok r
  unfolding to_order_status
  shown-status OrderStatus.created r h = ap ok (some-injective h)
  shown-status OrderStatus.canceled r h = ap ok (some-injective h)
  shown-status OrderStatus.awaiting_payment r h = ap ok (some-injective h)
  shown-status OrderStatus.complete r h = ap ok (some-injective h)
  shown-status OrderStatus.unspecified r h = cc
  shown-status (OrderStatus.unrecognized n) r h = cc

  or_range_error-ok :
      (text : Option String) (t : String) → or_range_error dates text ≡ ok t → text ≡ some t
  or_range_error-ok none t h = cc
  or_range_error-ok (some text) t h = ap some (ok-injective h)

  to_order_response-Shows :
      (o : OrderGrpcResponse) (r : OrderResponse) → to_order_response dates o ≡ ok r → Shows o r
  unfolding to_order_response iso_string
  to_order_response-Shows o r h =
      let (text, dated, h1) = >>=-eq-ok (iso_string dates (to_date dates o.expires_at)) _ h in
      let (status, known, h2) = >>=-eq-ok (to_order_status o.status) _ h1 in
      let same = ok-injective h2 in
      record {
        id = sym (ap (λ x. x.id) same);
        ticket_id = sym (ap (λ x. x.ticket_id) same);
        user_id = sym (ap (λ x. x.user_id) same);
        status = status-shown o.status status known ∙ ap (λ x. some x.status) same;
        expires_at = or_range_error-ok _ text dated ∙ ap (λ x. some x.expires_at) same;
      }

  Shows-to_order_response :
      (o : OrderGrpcResponse) (r : OrderResponse) → Shows o r → to_order_response dates o ≡ ok r
  unfolding to_order_response iso_string
  Shows-to_order_response o r h =
      rw (h.expires_at, shown-status o.status r.status h.status) (cc (h.id, h.ticket_id, h.user_id))

  to_order_responses-Shown :
      (os : List OrderGrpcResponse) (rs : List OrderResponse)
      → to_order_responses dates os ≡ ok rs
      → Shown os rs
  unfolding to_order_responses
  to_order_responses-Shown [] [] h = tt
  to_order_responses-Shown [] (r ∷ rs) h = cc
  to_order_responses-Shown (o ∷ os) rs h =
      let (first, shown, h1) = >>=-eq-ok (to_order_response dates o) _ h in
      let (rest, shown_rest, h2) = >>=-eq-ok (to_order_responses dates os) _ h1 in
      rw (← ok-injective h2)
        (to_order_response-Shows o first shown, to_order_responses-Shown os rest shown_rest)

  Shown-to_order_responses :
      (os : List OrderGrpcResponse) (rs : List OrderResponse)
      → Shown os rs
      → to_order_responses dates os ≡ ok rs
  unfolding to_order_responses
  Shown-to_order_responses [] [] h = refl
  Shown-to_order_responses [] (r ∷ rs) h = absurd h
  Shown-to_order_responses (o ∷ os) [] h = absurd h
  Shown-to_order_responses (o ∷ os) (r ∷ rs) (shown, h) =
      rw (Shows-to_order_response o r shown, Shown-to_order_responses os rs h)

guarded-uncoded {ℓ} :
    {A : Type ℓ} (grpc : MetadataApi) (json : Json) (identity : IdentityGrpcService grpc)
    (item : Option ErrorItem) (m : Result Value A)
    → is_uncoded m ≡ true
    → guarded grpc json identity item m ≡ err service_unavailable
guarded-uncoded grpc json identity item (ok a) h = cc
guarded-uncoded grpc json identity item (err e) h =
    ap err (throw_gateway_grpc_error-uncoded json e item (ground arith))

list_orders_lem :
    (grpc : MetadataApi) (json : Json) (dates : DateApi) (identity : IdentityGrpcService grpc)
    (orders : OrdersGrpcService) (user_id : String) (found : Option (List OrderGrpcResponse))
    → orders.list_orders user_id ≡ ok found
    → list_orders grpc json dates identity orders user_id
      ≡ guarded grpc json identity
          (some unable_item)
          (to_order_responses dates (default_to [] found))
unfolding list_orders
list_orders_lem grpc json dates identity orders user_id found answered = rw answered

guarded-eq-ok {ℓ} :
    {A : Type ℓ} (grpc : MetadataApi) (json : Json) (identity : IdentityGrpcService grpc)
    (item : Option ErrorItem) (m : Result Value A) {a : A}
    → guarded grpc json identity item m ≡ ok a
    → m ≡ ok a
guarded-eq-ok grpc json identity item (ok b) h = cc
guarded-eq-ok grpc json identity item (err e) h = cc

-- `GET /orders` of a user with an order whose status the gateway does not know, unspecified or new,
-- fails as an unavailable service, whatever the other orders are.
pub list_orders-unsupported :
    (grpc : MetadataApi) (json : Json) (dates : DateApi) (identity : IdentityGrpcService grpc)
    (orders : OrdersGrpcService) (user_id : String) (os : List OrderGrpcResponse)
    → orders.list_orders user_id ≡ ok (some os)
    → any (λ o. is_unsupported o.status) os ≡ true
    → list_orders grpc json dates identity orders user_id ≡ err service_unavailable
list_orders-unsupported grpc json dates identity orders user_id os answered unsupported =
    list_orders_lem grpc json dates identity orders user_id (some os) answered
    ∙ guarded-uncoded grpc json identity (some unable_item) (to_order_responses dates os)
        (to_order_responses-unsupported dates os unsupported)

-- `GET /orders` answers with a list exactly when that list is the user's orders in the order of the
-- service, each with its ids, its status, one of the four, and its expiry as an ISO text; where the
-- service leaves the list out, with the empty list.
pub list_orders-Shown_iff :
    (grpc : MetadataApi) (json : Json) (dates : DateApi) (identity : IdentityGrpcService grpc)
    (orders : OrdersGrpcService) (user_id : String) (found : Option (List OrderGrpcResponse))
    (rs : List OrderResponse)
    → orders.list_orders user_id ≡ ok found
    → (list_orders grpc json dates identity orders user_id ≡ ok rs)
      ↔ Shown dates (default_to [] found) rs
list_orders-Shown_iff grpc json dates identity orders user_id found rs answered =
    let step = list_orders_lem grpc json dates identity orders user_id found answered in
    (
      λ listed.
          to_order_responses-Shown dates _ rs
            (guarded-eq-ok grpc json identity (some unable_item) _ (rw step at listed)),
      λ shown.
          step
          ∙ ap (guarded grpc json identity (some unable_item))
              (Shown-to_order_responses dates _ rs shown),
    )
