-- ===== src/Stress/Shown.antt =====
-- The answers that show a ticket, apart from the script's own test.
use polyglot_ticketing_v.Base.{
  ℕ, pos, negsuc, String, ◌≡◌, refl, ap, Bool, true, false, ◌&&◌, Option, none, some, eq_iff,
  ==_iff, arith,
}
use polyglot_ticketing_v.Value.{
  Value, undefined, null, bool, num, str, arr, obj, property, is_object,
}
use polyglot_ticketing_v.Stress.{Ticket, is_text, is_price, shows}

-- A body with the id, the price and the title of the ticket.
pub record Shown (body : Value) (ticket : Ticket) : Type 0 where
  pub id : property "id" body ≡ some (str ticket.id)
  pub price : property "price" body ≡ some (num (pos ticket.price))
  pub title : property "title" body ≡ some (str ticket.title)

is_text-some : (t : String) (o : Option Value) → is_text t o ≡ true → o ≡ some (str t)
is_text-some t none h = cc
is_text-some t (some (str s)) h = ap (λ x. some (str x)) ((eq_iff s t).0 h)
is_text-some t (some undefined) h = cc
is_text-some t (some null) h = cc
is_text-some t (some (bool b)) h = cc
is_text-some t (some (num n)) h = cc
is_text-some t (some (arr vs)) h = cc
is_text-some t (some (obj fs)) h = cc

is_price-some : (p : ℕ) (o : Option Value) → is_price p o ≡ true → o ≡ some (num (pos p))
is_price-some p none h = cc
is_price-some p (some (num (pos n))) h = ap (λ x. some (num (pos x))) ((==_iff n p).0 h)
is_price-some p (some (num (negsuc n))) h = cc
is_price-some p (some (str s)) h = cc
is_price-some p (some undefined) h = cc
is_price-some p (some null) h = cc
is_price-some p (some (bool b)) h = cc
is_price-some p (some (arr vs)) h = cc
is_price-some p (some (obj fs)) h = cc

both : (a b : Bool) → (a && b) ≡ true → (a ≡ true) × (b ≡ true)
both true b h = (refl, h)
both false b h = cc

pub shows-Shown : (body : Value) (ticket : Ticket) → shows body ticket ≡ true → Shown body ticket
shows-Shown body ticket h =
    let has_id = is_text ticket.id (property "id" body) in
    let has_price = is_price ticket.price (property "price" body) in
    let has_title = is_text ticket.title (property "title" body) in
    let (h1, title) = both (is_object body && has_id && has_price) has_title h in
    let (h2, price) = both (is_object body && has_id) has_price h1 in
    let (object, id) = both (is_object body) has_id h2 in
    record {
      id = is_text-some ticket.id (property "id" body) id;
      price = is_price-some ticket.price (property "price" body) price;
      title = is_text-some ticket.title (property "title" body) title;
    }

-- Only objects have properties.
property-object : (k : String) (body v : Value) → property k body ≡ some v → is_object body ≡ true
property-object k (obj fs) v h = refl
property-object k (arr vs) v h = refl
property-object k undefined v h = cc
property-object k null v h = cc
property-object k (bool b) v h = cc
property-object k (num n) v h = cc
property-object k (str s) v h = cc

pub Shown-shows : (body : Value) (ticket : Ticket) → Shown body ticket → shows body ticket ≡ true
Shown-shows body ticket h =
    rw (property-object "id" body (str ticket.id) h.id, h.id, h.price, h.title)
      (ground (
        arith,
        ==_iff ticket.price ticket.price,
        eq_iff ticket.id ticket.id,
        eq_iff ticket.title ticket.title,
      ))
