-- ===== src/Identity/Mappers/Tables.antt =====
-- Which errors of Better Auth become which gRPC errors at a sign-up.
use polyglot_ticketing_v.Base.{
  ℕ, ℤ, pos, negsuc, ◌≡◌, ◌≢◌, ◌↔◌, ◌≤◌, ◌<◌, refl, ◌∙◌, ap, Option, none, some, [], ◌∷◌, arith,
  if◌then◌else◌,
}
use polyglot_ticketing_v.Value.{Value}
use polyglot_ticketing_v.Contracts.ErrorItem.{ErrorItem}
use polyglot_ticketing_v.Contracts.GrpcStatus
use polyglot_ticketing_v.Identity.Errors.{create_invalid_argument_error}
use polyglot_ticketing_v.Identity.Mappers.{structured, body_code, is_code}
use polyglot_ticketing_v.Identity.Mappers.Signup.{
  get_http_status_code, status_code_of, get_grpc_status_code, map_better_auth_error, get_error_item,
  item_of_status,
}

-- A client error of HTTP other than a conflict.
abbrev pub IsClientError : Option ℤ → Type 0
IsClientError status = (s : ℕ) × (status ≡ some (pos s)) × (400 ≤ s) × (s < 500) × (s ≢ 409)

some-pos-injective : {m n : ℕ} → some (pos m) ≡ some (pos n) → m ≡ n
some-pos-injective e = cc

conflict-only : (n : ℕ) → status_code_of (some (pos n)) ≡ 6 → n ≡ 409
conflict-only n h = ground arith

client-only : (n : ℕ) → status_code_of (some (pos n)) ≡ 3 → (400 ≤ n) × (n < 500) × (n ≢ 409)
client-only n h = (ground arith, ground arith, λ e. ground arith)

client-status : (n : ℕ) → 400 ≤ n → n < 500 → n ≢ 409 → status_code_of (some (pos n)) ≡ 3
client-status n lo hi other = ground arith

server-status : (n : ℕ) → 500 ≤ n → status_code_of (some (pos n)) ≡ 13
server-status n h = ground arith

status_code_of-conflict : (o : Option ℤ) → (status_code_of o ≡ 6) ↔ (o ≡ some (pos 409))
status_code_of-conflict none = (λ h. absurd (ground arith), λ h. cc)
status_code_of-conflict (some (negsuc n)) = (λ h. absurd (ground arith), λ h. cc)
status_code_of-conflict (some (pos n)) =
    (λ h. ap (λ m. some (pos m)) (conflict-only n h), λ h. ap status_code_of h)

status_code_of-client : (o : Option ℤ) → (status_code_of o ≡ 3) ↔ IsClientError o
status_code_of-client none = (λ h. absurd (ground arith), λ h. cc)
status_code_of-client (some (negsuc n)) = (λ h. absurd (ground arith), λ h. cc)
status_code_of-client (some (pos n)) = (
  λ h. (n, refl, (client-only n h).0, (client-only n h).1, (client-only n h).2),
  λ (s, e, lo, hi, other). ap status_code_of e ∙ client-status s lo hi other,
)

-- The gRPC status of a failed sign-up: ALREADY_EXISTS exactly for a 409 of Better Auth, and
-- INVALID_ARGUMENT exactly for another status from 400 to 499. The error always has one item.
pub map_better_auth_error-status :
    (error : Value)
    → ((map_better_auth_error error).code ≡ 6 ↔ get_http_status_code error ≡ some (pos 409))
      × ((map_better_auth_error error).code ≡ 3 ↔ IsClientError (get_http_status_code error))
      × ((map_better_auth_error error).errors ≡ get_error_item error ∷ [])
unfolding map_better_auth_error get_grpc_status_code
map_better_auth_error-status error = (
  status_code_of-conflict (get_http_status_code error),
  status_code_of-client (get_http_status_code error),
  refl,
)

item_of_server : (n : ℕ) → 500 ≤ n → item_of_status (some (pos n)) ≡ create_invalid_argument_error
item_of_server n h = ground arith

get_error_item-uncoded :
    (error : Value)
    → body_code error ≡ none
    → get_error_item error ≡ item_of_status (get_http_status_code error)
unfolding get_error_item
get_error_item-uncoded error bare = rw (bare, is_code, if◌then◌else◌)

get_grpc_status_code-at :
    (error : Value) {o : Option ℤ}
    → get_http_status_code error ≡ o
    → get_grpc_status_code error ≡ status_code_of o
unfolding get_grpc_status_code
get_grpc_status_code-at error status = ap status_code_of status

map_better_auth_error-parts :
    (error : Value) {code : ℕ} {item : ErrorItem}
    → get_grpc_status_code error ≡ code
    → get_error_item error ≡ item
    → map_better_auth_error error ≡ structured code item
unfolding map_better_auth_error
map_better_auth_error-parts error status item = rw (status, item)

-- Where Better Auth fails with a status of at least 500 and no code in its body, the error is
-- INTERNAL, and yet its item is the one for invalid data.
pub map_better_auth_error-server :
    (error : Value) (s : ℕ)
    → 500 ≤ s
    → get_http_status_code error ≡ some (pos s)
    → body_code error ≡ none
    → map_better_auth_error error ≡ structured GrpcStatus.internal create_invalid_argument_error
map_better_auth_error-server error s h status bare =
    map_better_auth_error-parts error (get_grpc_status_code-at error status ∙ server-status s h)
      (get_error_item-uncoded error bare ∙ ap item_of_status status ∙ item_of_server s h)
