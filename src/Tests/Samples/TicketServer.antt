-- ===== src/Tests/Samples/TicketServer.antt =====
-- A server of tickets: it numbers them, with their numbers in unary as their ids, and answers with
-- texts that hold the two numbers of a ticket before its title.
use Prim.Native.String.{[], ◌∷◌}
use polyglot_ticketing_v.Base.{
  ℕ, suc, ◌<◌, pos, String, ◌≡◌, ◌≢◌, refl, sym, ap, ◌∙◌, true, Option, none, some, Result, ok,
  str_eq, eq_iff, ◌==◌, ==_iff, if◌then◌else◌, arith,
}
use text.Mathlib.TextLemmas.{nil-append, cons-append}
use polyglot_ticketing_v.Base.Text.{append, count}
use polyglot_ticketing_v.Value.{Value, str, num, property, text_property}
use polyglot_ticketing_v.Stress.{Request, Response, Ticket, ticket_url, created_id, body_of}
use polyglot_ticketing_v.Stress.Shown.{Shown}
use polyglot_ticketing_v.Stress.Server.{reply, post, put, get, TicketsApi}
use polyglot_ticketing_v.Tests.Samples.Node.{unary, count-unary}
use polyglot_ticketing_v.Tests.Samples.TicketTexts.{
  name_of, text_of_ticket, engine, config, cons_full, parse-text_of_ticket,
}

pub record Server : Type 0 where
  pub next : ℕ
  pub held : ℕ → Option (ℕ × String)

abbrev set : ℕ → ℕ → String → (ℕ → Option (ℕ × String)) → ℕ → Option (ℕ × String)
set n price title held m = if m == n then some (price, title) else held m

abbrev answer : ℕ → ℕ → Option (ℕ × String) → Response
answer status n none = reply 404 ""
answer status n (some (price, title)) = reply status (text_of_ticket n price title)

abbrev price_of : Option Value → ℕ
price_of (some (num (pos p))) = p
price_of _ = 0

abbrev title_of : Option Value → String
title_of (some (str t)) = t
title_of _ = ""

abbrev write : ℕ → Value → (ℕ → Option (ℕ × String)) → ℕ → Option (ℕ × String)
write n body held = set n (price_of (property "price" body)) (title_of (property "title" body)) held

-- The number of a ticket from its URL, which has one character before its name.
abbrev number_of : String → ℕ
number_of [] = 0
number_of (c ∷ []) = 0
number_of (c ∷ d ∷ id) = count id

abbrev route : String → ℕ → Option Value → Server → Result Value Response × Server
route method n (some body) s =
    if str_eq method "POST"
    then (let held = write s.next body s.held in
        (ok (answer 201 s.next (held s.next)), record { next = suc s.next; held = held }))
    else (let held = write n body s.held in
        (ok (answer 200 n (held n)), record { next = s.next; held = held }))
route method n none s = (ok (answer 200 n (s.held n)), s)

abbrev pub fetch : Request → Server → Result Value Response × Server
fetch request s = route request.method (number_of request.url) request.body s

-- The ticket has a number, under which the server holds its price and title.
abbrev Holds : Server → Ticket → Type 0
Holds s ticket =
    (n : ℕ) × (ticket.id ≡ name_of n)
    × (n < s.next)
    × (s.held n ≡ some (ticket.price, ticket.title))

pub name_of_injective : (n m : ℕ) → name_of n ≡ name_of m → n ≡ m
name_of_injective n m h = omega (arith, ap count h, count-unary n, count-unary m)

pub same_text : (s : String) → str_eq s s ≡ true
same_text s = (eq_iff s s).1 refl

pub document-Shown :
    (n : ℕ) (ticket : Ticket)
    → ticket.id ≡ name_of n
    → Shown (body_of engine (text_of_ticket n ticket.price ticket.title)) ticket
document-Shown n ticket named =
    let parsed = parse-text_of_ticket n ticket.price ticket.title in
    record {
      id = ap (property "id") parsed ∙ ap (λ i. some (str i)) (sym named);
      price = ap (property "price") parsed;
      title = ap (property "title") parsed;
    }

pub number_of-url : (n : ℕ) → number_of (append "" (append "/" (name_of n))) ≡ n
number_of-url n = rw (nil-append, cons-append, nil-append) (count-unary n)

pub set-same :
    (n price : ℕ) (title : String) (held : ℕ → Option (ℕ × String))
    → set n price title held n ≡ some (price, title)
set-same n price title held = ground (arith, ==_iff n n)

pub set-other :
    (n m price : ℕ) (title : String) (held : ℕ → Option (ℕ × String))
    → m ≢ n
    → set n price title held m ≡ held m
set-other n m price title held other = ground (arith, ==_iff m n)

pub post_works :
    (s : Server) (price : ℕ) (title : String)
    → (id : String) × (text : String) × (t : Server) × (fetch
          (post engine fetch config price title)
          s
        ≡ (ok (reply 201 text), t))
      × (created_id (text_property "id" (body_of engine text)) ≡ some id)
      × Holds t (record { id = id; price = price; title = title })
      × ((old : Ticket) → Holds s old → Holds t old × (old.id ≢ id))
post_works s price title = (
  name_of s.next,
  text_of_ticket s.next price title,
  record { next = suc s.next; held = set s.next price title s.held },
  rw (set-same s.next price title s.held) refl,
  rw (parse-text_of_ticket s.next price title) (rw (cons_full "1" (unary s.next)) refl),
  (s.next, refl, omega arith, set-same s.next price title s.held),
  λ old h.
      let (m, named, below, held) = h in
      let other : m ≢ s.next = λ e. omega arith in
      (
        (m, named, omega arith, set-other s.next m price title s.held other ∙ held),
        λ e. other (name_of_injective m s.next (sym named ∙ e)),
      ),
)

pub number_of_ticket :
    (n : ℕ) (ticket : Ticket)
    → ticket.id ≡ name_of n
    → number_of (append "" (append "/" ticket.id)) ≡ n
number_of_ticket n ticket named =
    ap (λ id. number_of (append "" (append "/" id))) named ∙ number_of-url n

pub put_works :
    (s : Server) (old ticket : Ticket)
    → Holds s old
    → old.id ≡ ticket.id
    → (text : String) × (t : Server) × (fetch (put engine fetch config ticket) s
        ≡ (ok (reply 200 text), t))
      × Shown (body_of engine text) ticket
      × Holds t ticket
      × ((other : Ticket) → Holds s other → other.id ≢ ticket.id → Holds t other)
unfolding ticket_url
put_works s old ticket (n, named, below, held) same =
    let is_named : ticket.id ≡ name_of n = sym same ∙ named in
    (
      text_of_ticket n ticket.price ticket.title,
      record { next = s.next; held = set n ticket.price ticket.title s.held },
      rw (number_of_ticket n ticket is_named, set-same n ticket.price ticket.title s.held) refl,
      document-Shown n ticket is_named,
      (n, is_named, below, set-same n ticket.price ticket.title s.held),
      λ other h differs.
          let (m, other_named, other_below, other_held) = h in
          let apart : m ≢ n = λ e. differs (other_named ∙ ap name_of e ∙ sym is_named) in
          (
            m,
            other_named,
            other_below,
            set-other n m ticket.price ticket.title s.held apart ∙ other_held,
          ),
    )

pub get_works :
    (s : Server) (ticket : Ticket)
    → Holds s ticket
    → (text : String) × (t : Server) × (fetch (get engine fetch config ticket.id) s
        ≡ (ok (reply 200 text), t))
      × Shown (body_of engine text) ticket
      × ((other : Ticket) → Holds s other → Holds t other)
unfolding ticket_url
get_works s ticket (n, named, below, held) = (
  text_of_ticket n ticket.price ticket.title,
  s,
  rw (number_of_ticket n ticket named, held) refl,
  document-Shown n ticket named,
  λ other h. h,
)

abbrev pub tickets_api : TicketsApi engine fetch config
tickets_api = record {
  Holds = Holds;
  post-ok = λ s price title priced titled. post_works s price title;
  put-ok = λ s old ticket held same priced titled. put_works s old ticket held same;
  get-ok = get_works;
}
