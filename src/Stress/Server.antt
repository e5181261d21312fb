-- ===== src/Stress/Server.antt =====
-- What the script relies on in the server.
use polyglot_ticketing_v.Base.{ℕ, ◌≤◌, String, ◌≡◌, ◌≢◌, none, some, Result, ok}
use polyglot_ticketing_v.Value.{Value, text_property}
use polyglot_ticketing_v.Stress.Shown.{Shown}
use polyglot_ticketing_v.Stress.{
  Engine, Config, Request, Response, Ticket, ticket_body, created_id, body_of, ticket_url,
}

-- A response with a status and a text.
abbrev pub reply : ℕ → String → Response
reply status text = record { status = status; text = ok text }

module _ (engine : Engine) {S : Type 0} (fetch : Request → S → Result Value Response × S)
    (config : Config) where
  abbrev pub post : ℕ → String → Request
  post price title = record {
    method = "POST";
    url = config.tickets_url;
    cookie = config.cookie;
    body = some (ticket_body price title);
  }

  abbrev pub put : Ticket → Request
  put ticket = record {
    method = "PUT";
    url = ticket_url engine config.tickets_url ticket.id;
    cookie = config.cookie;
    body = some (ticket_body ticket.price ticket.title);
  }

  abbrev pub get : String → Request
  get id = record {
    method = "GET";
    url = ticket_url engine config.tickets_url id;
    cookie = config.cookie;
    body = none;
  }

  -- The tickets API as its routes are documented: a ticket with a price of at least 1 and a title is
  -- created under a new id, its owner may update it, and it is read as it was written last. Requests
  -- do not fail.
  pub record TicketsApi : Type 1 where
    pub Holds : S → Ticket → Type 0
    pub post-ok :
        (s : S) (price : ℕ) (title : String)
        → 1 ≤ price
        → title ≢ ""
        → (id : String) × (text : String) × (t : S) × (fetch (post price title) s
            ≡ (ok (reply 201 text), t))
          × (created_id (text_property "id" (body_of engine text)) ≡ some id)
          × Holds t (record { id = id; price = price; title = title })
          × ((old : Ticket) → Holds s old → Holds t old × (old.id ≢ id))
    pub put-ok :
        (s : S) (old ticket : Ticket)
        → Holds s old
        → old.id ≡ ticket.id
        → 1 ≤ ticket.price
        → ticket.title ≢ ""
        → (text : String) × (t : S) × (fetch (put ticket) s ≡ (ok (reply 200 text), t))
          × Shown (body_of engine text) ticket
          × Holds t ticket
          × ((other : Ticket) → Holds s other → other.id ≢ ticket.id → Holds t other)
    pub get-ok :
        (s : S) (ticket : Ticket)
        → Holds s ticket
        → (text : String) × (t : S) × (fetch (get ticket.id) s ≡ (ok (reply 200 text), t))
          × Shown (body_of engine text) ticket
          × ((other : Ticket) → Holds s other → Holds t other)
