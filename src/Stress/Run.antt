-- ===== src/Stress/Run.antt =====
-- The calls and the loops of a run.
use polyglot_ticketing_v.Base.{ℕ, zero, suc, ◌+◌, String, none, some, List, [], ◌∷◌, Result}
use polyglot_ticketing_v.Base.Text.{append}
use polyglot_ticketing_v.Base.Calls.{Call, pure, throw, lift, ◌>>=◌, ◌>>◌, catching}
use polyglot_ticketing_v.Value.{Value}
use polyglot_ticketing_v.Stress.{
  Engine, Failure, with_cause, initial_price, first_update_price, final_update_price, Config,
  Request, Response, Ticket, ticket_body, error_message, assert_status, assert_ticket, ticket_url,
  request_json, id_of,
}

module _ (engine : Engine) {S : Type 0} (fetch : Request → S → Result Value Response × S) where
  unfoldable pub create_ticket : Config → String → Call Failure S String
  unfolding request_json assert_status
  create_ticket config title = do
    response ←
        request_json engine fetch config "POST" (some (ticket_body initial_price title))
          config.tickets_url
    lift (assert_status engine response 201 "Ticket creation")
    lift (id_of engine fetch response.0)

  unfoldable pub update_ticket : Config → Ticket → String → Call Failure S (Unit {0})
  unfolding request_json assert_status assert_ticket ticket_url
  update_ticket config ticket action = do
    response ←
        request_json engine fetch config "PUT" (some (ticket_body ticket.price ticket.title))
          (ticket_url engine config.tickets_url ticket.id)
    lift (assert_status engine response 200 action)
    lift (assert_ticket engine response.0 ticket action)

  unfoldable pub base_title : String → ℕ → String
  base_title run_id iteration =
      append "stress-ticket-" (append run_id (append "-" (engine.decimal (iteration + 1))))

  abbrev pub first_update : String → String → Ticket
  first_update id title = record {
    id = id;
    price = first_update_price;
    title = append title "-first-update";
  }

  abbrev pub final_ticket : String → String → Ticket
  final_ticket id title = record {
    id = id;
    price = final_update_price;
    title = append title "-second-update";
  }

  unfoldable pub run_cycle : Config → ℕ → String → Call Failure S Ticket
  unfolding create_ticket update_ticket base_title
  run_cycle config iteration run_id = do
    let title = base_title run_id iteration
    id ← create_ticket config title
    update_ticket config (first_update id title) "First ticket update"
    update_ticket config (final_ticket id title) "Second ticket update"
    pure (final_ticket id title)

  unfoldable pub verify_ticket : Config → Ticket → Call Failure S (Unit {0})
  unfolding request_json assert_status assert_ticket ticket_url
  verify_ticket config ticket = do
    response ←
        request_json engine fetch config "GET" none (ticket_url engine config.tickets_url ticket.id)
    lift (assert_status engine response 200 "Final ticket retrieval")
    lift (assert_ticket engine response.0 ticket "Final ticket retrieval")

  abbrev pub in_step : String → ℕ → Failure → Failure
  in_step step index error =
      with_cause
        (append step
          (append (engine.decimal (index + 1)) (append " failed: " (error_message engine error))))
        error

  -- The first loop of `main`, for the iterations that are left, from `index` on.
  unfoldable pub run_cycles : Config → String → ℕ → ℕ → Call Failure S (List Ticket)
  unfolding run_cycle error_message
  run_cycles config run_id index zero = pure []
  run_cycles config run_id index (suc n) = do
    ticket ←
        catching (run_cycle config index run_id) (λ error. throw (in_step "Cycle " index error))
    tickets ← run_cycles config run_id (suc index) n
    pure (ticket ∷ tickets)

  -- The second loop.
  unfoldable pub verify_tickets : Config → ℕ → List Ticket → Call Failure S (Unit {0})
  unfolding verify_ticket error_message
  verify_tickets config index [] = pure tt
  verify_tickets config index (ticket ∷ tickets) = do
    catching (verify_ticket config ticket) (λ error. throw (in_step "Verification " index error))
    verify_tickets config (suc index) tickets

  unfoldable pub main : Config → String → Call Failure S (Unit {0})
  unfolding run_cycles verify_tickets
  main config run_id = do
    final_tickets ← run_cycles config run_id 0 config.limit
    verify_tickets config 0 final_tickets
