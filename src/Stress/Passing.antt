-- ===== src/Stress/Passing.antt =====
-- What a run that passes has seen.
use polyglot_ticketing_v.Base.{
  ℕ, zero, suc, String, ◌≡◌, refl, sym, ap, subst, ◌∙◌, true, Option, none, List, [], ◌∷◌, length,
  Result, ok, ok_injective,
}
use polyglot_ticketing_v.Base.Calls.{throw, lift, catching, >>=-ok, catching-ok, lift-ok}
use polyglot_ticketing_v.Value.{Value}
use polyglot_ticketing_v.Stress.{
  Engine, Config, Request, Response, Ticket, shows, body_of, assert_status, ticket_url,
  request_json,
}
use polyglot_ticketing_v.Stress.Shown.{Shown, shows-Shown}
use polyglot_ticketing_v.Stress.Run.{
  create_ticket, update_ticket, base_title, first_update, final_ticket, run_cycle, verify_ticket,
  in_step, run_cycles, verify_tickets, main,
}
use polyglot_ticketing_v.Stress.Answers.{assert_status-ok, assert_ticket-ok, request_json-ok}

module _ (engine : Engine) {S : Type 0} (fetch : Request → S → Result Value Response × S)
    (config : Config) where
  abbrev request : String → Ticket → Option Value → Request
  request method ticket body = record {
    method = method;
    url = ticket_url engine config.tickets_url ticket.id;
    cookie = config.cookie;
    body = body;
  }

  -- The server is asked for the ticket in one state, answers with it, and is in the other then.
  abbrev pub Seen : Ticket → S → S → Type 0
  Seen ticket u v =
      (response : Response) × (raw_body : String) × (fetch (request "GET" ticket none) u
        ≡ (ok response, v))
      × (response.status ≡ 200)
      × (response.text ≡ ok raw_body)
      × Shown (body_of engine raw_body) ticket

  -- The server is asked for the tickets one after the other, and nothing else.
  abbrev pub SeenAll : List Ticket → S → S → Type 0
  SeenAll [] u w = u ≡ w
  SeenAll (ticket ∷ tickets) u w = (v : S) × Seen ticket u v × SeenAll tickets v w

  verify_ticket-Seen :
      (ticket : Ticket) (s t : S)
      → verify_ticket engine fetch config ticket s ≡ (ok tt, t)
      → Seen ticket s t
  unfolding verify_ticket
  verify_ticket-Seen ticket s t h =
      let (answer, u, got, h1) =
        >>=-ok
          (request_json engine fetch config "GET" none
            (ticket_url engine config.tickets_url ticket.id))
          _ h in
      let (done, v, status, h2) =
        >>=-ok (lift (assert_status engine answer 200 "Final ticket retrieval")) _ h1 in
      let (response, raw_body, fetched_as, read, answered) =
        request_json-ok engine fetch config "GET" none
          (ticket_url engine config.tickets_url ticket.id) s u answer got in
      let same = (lift-ok _ status).1 ∙ (lift-ok _ h2).1 in
      (
        response,
        raw_body,
        fetched_as ∙ ap (λ w. (ok response, w)) same,
        sym (ap (λ a. a.1) answered)
            ∙ assert_status-ok engine fetch config answer 200 "Final ticket retrieval"
                (lift-ok _ status).0,
        read,
        shows-Shown (body_of engine raw_body) ticket (
            subst (λ b. shows b ticket ≡ true) (ap (λ a. a.0) answered)
              (assert_ticket-ok engine fetch config answer.0 ticket "Final ticket retrieval"
                (lift-ok _ h2).0)),
      )

  -- The tickets of the cycles from an index on, as their last updates leave them.
  abbrev pub Finals : String → ℕ → List Ticket → Type 0
  Finals run_id index [] = Unit
  Finals run_id index (ticket ∷ tickets) =
      (ticket ≡ final_ticket engine fetch ticket.id (base_title engine fetch run_id index))
      × Finals run_id (suc index) tickets

  run_cycle-final :
      (index : ℕ) (run_id : String) (s t : S) (ticket : Ticket)
      → run_cycle engine fetch config index run_id s ≡ (ok ticket, t)
      → ticket ≡ final_ticket engine fetch ticket.id (base_title engine fetch run_id index)
  unfolding run_cycle
  run_cycle-final index run_id s t ticket h =
      let title = base_title engine fetch run_id index in
      let (id, u, created, h1) = >>=-ok (create_ticket engine fetch config title) _ h in
      let (done, v, first, h2) =
        >>=-ok
          (update_ticket engine fetch config (first_update engine fetch id title)
            "First ticket update")
          _ h1 in
      let (done', w, second, h3) =
        >>=-ok
          (update_ticket engine fetch config (final_ticket engine fetch id title)
            "Second ticket update")
          _ h2 in
      let same : final_ticket engine fetch id title ≡ ticket = ok_injective (ap (λ r. r.0) h3) in
      sym same ∙ ap (λ i. final_ticket engine fetch i title) (ap (λ x. x.id) same)

  run_cycles-Finals :
      (run_id : String) (index n : ℕ) (s t : S) (tickets : List Ticket)
      → run_cycles engine fetch config run_id index n s ≡ (ok tickets, t)
      → (length tickets ≡ n) × Finals run_id index tickets
  unfolding run_cycles
  run_cycles-Finals run_id index zero s t tickets h =
      subst (λ l. (length l ≡ 0) × Finals run_id index l) (ok_injective (ap (λ r. r.0) h))
        (refl, tt)
  run_cycles-Finals run_id index (suc n) s t tickets h =
      let (ticket, u, cycle, h1) =
        >>=-ok
          (catching (run_cycle engine fetch config index run_id)
            (λ e. throw (in_step engine fetch "Cycle " index e)))
          _ h in
      let (rest, v, cycles, h2) =
        >>=-ok (run_cycles engine fetch config run_id (suc index) n) _ h1 in
      let (measured, finals) = run_cycles-Finals run_id (suc index) n u v rest cycles in
      subst (λ l. (length l ≡ suc n) × Finals run_id index l) (ok_injective (ap (λ r. r.0) h2))
        (
          ap suc measured,
          (
            run_cycle-final index run_id s u ticket (
                catching-ok (run_cycle engine fetch config index run_id)
                  (in_step engine fetch "Cycle " index) cycle),
            finals,
          ),
        )

  verify_tickets-Seen :
      (index : ℕ) (tickets : List Ticket) (s t : S)
      → verify_tickets engine fetch config index tickets s ≡ (ok tt, t)
      → SeenAll tickets s t
  unfolding verify_tickets
  verify_tickets-Seen index [] s t h = ap (λ r. r.1) h
  verify_tickets-Seen index (ticket ∷ tickets) s t h =
      let (done, u, seen, h1) =
        >>=-ok
          (catching (verify_ticket engine fetch config ticket)
            (λ e. throw (in_step engine fetch "Verification " index e)))
          _ h in
      (
        u,
        verify_ticket-Seen ticket s u (
            catching-ok (verify_ticket engine fetch config ticket)
              (in_step engine fetch "Verification " index) seen),
        verify_tickets-Seen (suc index) tickets u t h1,
      )

  -- What a run that passes means: the cycles have made one ticket each, in order, with the price
  -- and the title of its last update, and from the state that they leave on the server has been
  -- asked for each of them, and has answered with status 200 and just that id, price and title.
  pub main-Seen :
      (run_id : String) (s t : S)
      → main engine fetch config run_id s ≡ (ok tt, t)
      → (tickets : List Ticket) × (u : S) × (run_cycles engine fetch config run_id 0 config.limit s
          ≡ (ok tickets, u))
        × (length tickets ≡ config.limit)
        × Finals run_id 0 tickets
        × SeenAll tickets u t
  unfolding main
  main-Seen run_id s t h =
      let (tickets, u, cycles, h1) =
        >>=-ok (run_cycles engine fetch config run_id 0 config.limit) _ h in
      let (measured, finals) = run_cycles-Finals run_id 0 config.limit s u tickets cycles in
      (tickets, u, cycles, measured, finals, verify_tickets-Seen 0 tickets u t h1)
