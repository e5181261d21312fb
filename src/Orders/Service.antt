-- ===== src/Orders/Service.antt =====
-- apps/orders/internal/order/service.go, and internal/errorcode/error_code.go: the checks of a
-- request, and then its transaction. `uuid.Parse` and Postgres are third-party: `is_uuid` tells
-- where the first succeeds, and `cast` what UUID the second reads a text as, in its canonical text.
-- The service's clock and the database's are two.
use polyglot_ticketing_v.Base.{
  ℕ, ◌+◌, String, Bool, ◌||◌, ◌&&◌, Option, none, some, List, [], ◌∷◌, Result, err, map_err, leb,
  ◌==◌, if◌then◌else◌,
}
use polyglot_ticketing_v.Base.Text.{every}
use polyglot_ticketing_v.Contracts.ErrorItem.{ErrorItem}
use polyglot_ticketing_v.Contracts.ErrorCode.{ErrorCode, error_code_name}
use polyglot_ticketing_v.Orders.{
  Order, ReservationResult, OrderError, invalid_text, Database, expiration_window,
}
use polyglot_ticketing_v.Orders.Repository.{
  reserve_ticket, cancel_by_id_and_user, get_by_id_and_user,
}

-- `errorcode.String`, from the name without its prefix.
abbrev name_or_internal : ErrorCode → Option String → String
name_or_internal ErrorCode.unspecified name = "INTERNAL_ERROR"
name_or_internal code none = "INTERNAL_ERROR"
name_or_internal code (some name) = name

unfoldable pub code_string : ErrorCode → String
unfolding error_code_name
code_string code = name_or_internal code (error_code_name code)

-- Go's `unicode.IsSpace`.
abbrev pub is_space : ℕ → Bool
is_space c =
    leb 9 c && leb c 13
    || c == 32
    || c == 0x85
    || c == 160
    || c == 0x1680
    || leb 0x2000 c && leb c 0x200a
    || c == 0x2028
    || c == 0x2029
    || c == 0x202f
    || c == 0x205f
    || c == 0x3000

-- `strings.TrimSpace(text) == ""`
abbrev pub is_blank : String → Bool
is_blank text = every is_space text

-- `ValidationError`, whose empty field JSON leaves out.
abbrev pub invalid_field : String → String → ErrorItem
invalid_field field message = record {
  code = code_string ErrorCode.invalid_argument;
  message = message;
  field = some field;
}

-- What ends a call: the errors of the checks, or the error of the transaction.
pub data Failure : Type 0 where
  invalid : List ErrorItem → Failure
  failed : OrderError → Failure

unfoldable pub validate_order_user : String → List ErrorItem
unfolding code_string
validate_order_user user_id =
    if is_blank user_id then invalid_field "userId" "Order user is required." ∷ [] else []

module _ (is_uuid : String → Bool) where
  unfoldable pub validate_order_id : String → List ErrorItem
  unfolding code_string
  validate_order_id order_id =
      if is_uuid order_id then [] else invalid_field "orderId" "Order ID must be a valid UUID." ∷ []

  unfoldable pub validate_ticket_reservation : String → String → List ErrorItem
  unfolding code_string validate_order_user
  validate_ticket_reservation ticket_id user_id =
      if is_uuid ticket_id
      then validate_order_user user_id
      else invalid_field "ticketId" "Ticket ID must be a valid UUID." ∷ []

-- `if validationErrors := ...; len(validationErrors) > 0`
abbrev pub checked {ℓ} :
    {A : Type ℓ}
    → List ErrorItem
    → Database
    → Result Failure A × Database
    → Result Failure A × Database
checked [] db rest = rest
checked (e ∷ errors) db rest = (err (invalid (e ∷ errors)), db)

abbrev pub done {ℓ} : {A : Type ℓ} → Result OrderError A × Database → Result Failure A × Database
done (r, db) = (map_err failed r, db)

-- A statement with an id, as the column's type reads it.
abbrev pub with_key {ℓ} :
    {A : Type ℓ}
    → Option String
    → Database
    → (String → Result OrderError A × Database)
    → Result OrderError A × Database
with_key none db statement = (err invalid_text, db)
with_key (some key) db statement = statement key

module _ (is_uuid : String → Bool) (cast : String → Option String) where
  -- `ReserveTicket`, at the time `clock` of the service and `now` of the database.
  unfoldable pub reserve :
      ℕ → ℕ → String → String → String → Database → Result Failure ReservationResult × Database
  unfolding validate_ticket_reservation
  reserve clock now id ticket_id user_id db =
      checked (validate_ticket_reservation is_uuid ticket_id user_id) db (
        done (
          with_key (cast ticket_id) db λ key.
            reserve_ticket now id
              (record {
                expires_at = clock + expiration_window;
                ticket_id = key;
                user_id = user_id;
              })
              db))

  unfoldable pub get_order : String → String → Database → Result Failure Order × Database
  unfolding validate_order_id validate_order_user
  get_order order_id user_id db = checked (validate_order_id is_uuid order_id) db (
      checked (validate_order_user user_id) db
        (done (with_key (cast order_id) db λ key. (get_by_id_and_user key user_id db, db))))

  unfoldable pub cancel_order : String → String → Database → Result Failure Order × Database
  unfolding validate_order_id validate_order_user
  cancel_order order_id user_id db = checked (validate_order_id is_uuid order_id) db (
      checked (validate_order_user user_id) db
        (done (with_key (cast order_id) db λ key. cancel_by_id_and_user key user_id db)))
