-- ===== src/Gateway/Errors/Contract.antt =====
-- The shape of the error documents of apps/api-gateway/src/errors: what the filter sends, and
-- what it takes over from an `ApiError`.
use polyglot_ticketing_v.Base.{
  ℕ, ◌≡◌, refl, ap, Bool, true, String, Option, none, some, List, [], ◌∷◌, map, all, All, ltb,
  Bool-cases, inl, inr, arith, if◌then◌else◌,
}
use polyglot_ticketing_v.Value.{Value, of_list, to_list, and_then, property, as_array}
use polyglot_ticketing_v.Gateway.Errors.{
  ErrorItem, Thrown, http, plain, error_response, item_value, api_error, as_error_item,
  nonempty_all, has_error_items,
}
use polyglot_ticketing_v.Gateway.Errors
use polyglot_ticketing_v.Gateway.Errors.WellFormed.{WellFormed, all-WellFormed}
use polyglot_ticketing_v.Gateway.Errors.Filter.{
  is_error_item, get_structured_response, message_item, fault_item, client_errors, response_errors,
  get_http_status, get_messages, catch,
}

pub to_list-of_list : (vs : List Value) → to_list (of_list vs) ≡ vs
to_list-of_list [] = refl
to_list-of_list (v ∷ vs) = ap (λ (l : List Value). v ∷ l) (to_list-of_list vs)

item_value-is_error_item : (e : ErrorItem) → is_error_item (item_value e) ≡ true
unfolding is_error_item item_value
item_value-is_error_item e = ground arith

pub item_value-Errors_is_error_item : (e : ErrorItem) → Errors.is_error_item (item_value e) ≡ true
unfolding Errors.is_error_item item_value
item_value-Errors_is_error_item e = ground arith

pub as_error_item-item_value : (e : ErrorItem) → as_error_item (item_value e) ≡ e
unfolding as_error_item item_value
as_error_item-item_value e = ground arith

-- How a backend writes an error item as the object of its document: the gateway accepts the
-- object and reads the item back.
pub record ItemWriter : Type 0 where
  pub write : ErrorItem → Value
  pub accepted : (e : ErrorItem) → Errors.is_error_item (write e) ≡ true
  pub read : (e : ErrorItem) → as_error_item (write e) ≡ e

abbrev pub gateway_writer : ItemWriter
gateway_writer = record {
  write = item_value;
  accepted = item_value-Errors_is_error_item;
  read = as_error_item-item_value;
}

pub map-as_error_item-write :
    (w : ItemWriter) (es : List ErrorItem) → map as_error_item (map w.write es) ≡ es
map-as_error_item-write w [] = refl
map-as_error_item-write w (e ∷ es) = cc (w.read e, map-as_error_item-write w es)

-- A test that every item passes when written, passes for a list of them.
module _ (p : Value → Bool) (write : ErrorItem → Value)
    (h : (e : ErrorItem) → p (write e) ≡ true) where
  all-map : (es : List ErrorItem) → all p (map write es) ≡ true
  all-map [] = refl
  all-map (e ∷ es) = rw (h e) (all-map es)

  nonempty_all-map :
      (e : ErrorItem) (es : List ErrorItem)
      → nonempty_all p (map write (e ∷ es)) ≡ some (map write (e ∷ es))
  nonempty_all-map e es = rw (all-map (e ∷ es), if◌then◌else◌)

-- The document of an `ApiError` is read back whole by the filter.
pub get_structured_response-error_response :
    (e : ErrorItem) (es : List ErrorItem)
    → get_structured_response (error_response (map item_value (e ∷ es)))
      ≡ some (map item_value (e ∷ es))
unfolding get_structured_response
get_structured_response-error_response e es =
    rw (to_list-of_list (map item_value es))
      (nonempty_all-map is_error_item item_value item_value-is_error_item e es)

-- The document of a backend is read back whole by the gRPC client.
pub has_error_items-error_response :
    (w : ItemWriter) (e : ErrorItem) (es : List ErrorItem)
    → has_error_items (error_response (map w.write (e ∷ es))) ≡ some (map w.write (e ∷ es))
unfolding has_error_items
has_error_items-error_response w e es =
    rw (to_list-of_list (map w.write es))
      (nonempty_all-map Errors.is_error_item w.write w.accepted e es)

nonempty_all_sound :
    (p : Value → Bool) (vs : List Value) {us : List Value}
    → nonempty_all p vs ≡ some us
    → all p us ≡ true
nonempty_all_sound p [] h = cc
nonempty_all_sound p (v ∷ vs) h = elim (Bool-cases (all p (v ∷ vs))) [
  | inl yes' ↦ ground arith
  | inr no' ↦ ground arith
]

and_then-nonempty_all :
    (o : Option (List Value)) {us : List Value}
    → and_then o (nonempty_all is_error_item) ≡ some us
    → all is_error_item us ≡ true
and_then-nonempty_all none h = cc
and_then-nonempty_all (some vs) h = nonempty_all_sound is_error_item vs h

client_errors-all :
    (status : ℕ) (response : Value) (o : Option (List Value))
    → ((us : List Value) → o ≡ some us → all is_error_item us ≡ true)
    → all is_error_item (client_errors status response o) ≡ true
client_errors-all status response (some us) h = h us refl
client_errors-all status response none h = messages (get_messages response)
  where
    messages :
        (ms : List String)
        → all is_error_item (map (λ m. item_value (message_item status m)) ms) ≡ true
    messages [] = refl
    messages (m ∷ ms) = rw (item_value-is_error_item (message_item status m)) (messages ms)

response_errors-all :
    (e : Thrown) (status : ℕ) → all is_error_item (response_errors e status) ≡ true
unfolding response_errors get_structured_response
response_errors-all (plain v) status = rw (item_value-is_error_item (fault_item status))
response_errors-all (http s response) status = elim (Bool-cases (ltb status 500)) [
  | inl client ↦
      rw (client, if◌then◌else◌)
        (client_errors-all status response (get_structured_response response)
          (λ us h. and_then-nonempty_all (and_then (property "errors" response) as_array) h))
  | inr server ↦ rw (server, if◌then◌else◌, item_value-is_error_item (fault_item status))
]

-- Whatever a handler throws, the filter answers with a document of the form `{ errors }`, each
-- entry of which has a text `message`, a text `code` and, if it has a `field`, a text there.
pub catch-contract :
    (e : Thrown)
    → (errors : List Value) × ((catch e).body ≡ error_response errors) × All WellFormed errors
unfolding catch
catch-contract e = (
  response_errors e (get_http_status e),
  refl,
  all-WellFormed _ (response_errors-all e (get_http_status e)),
)
