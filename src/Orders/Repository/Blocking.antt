-- ===== src/Orders/Repository/Blocking.antt =====
-- The ticket and the order that a reservation finds, apart from the search for them.
use polyglot_ticketing_v.Base.{
  ℕ, ◌≤◌, ◌<◌, String, ◌≡◌, ◌≢◌, refl, sym, subst, ◌⊎◌, Bool, true, false, ◌&&◌, ◌||◌, Bool-cases,
  inl, inr, Option, none, some, List, [], ◌∷◌, All, ltb, str_eq, eq_iff, if◌then◌else◌, arith,
}
use mathlib.Core.List.{Memᴰ}
use polyglot_ticketing_v.Orders.{
  Status, created, canceled, awaiting_payment, complete, Ticket, Order, is_pending, is_complete,
}
use polyglot_ticketing_v.Orders.Repository.{
  find_ticket, blocks, precedes, better, find_blocking_order,
}

-- The ticket with the key, or none of them has it.
abbrev pub Finds : List Ticket → String → Option Ticket → Type 0
Finds tickets key none = All (λ t. t.id ≢ key) tickets
Finds tickets key (some t) = Memᴰ t tickets × (t.id ≡ key)

pub find_ticket-Finds :
    (tickets : List Ticket) (key : String) → Finds tickets key (find_ticket key tickets)
find_ticket-Finds [] key = tt
find_ticket-Finds (t ∷ ts) key = elim (Bool-cases (str_eq t.id key)) [
  | inl same ↦ rw same (Memᴰ.head refl, (eq_iff t.id key).0 same)
  | inr other ↦
      rw other
        (below (find_ticket key ts) (ground (arith, eq_iff t.id key)) (find_ticket-Finds ts key))
]
  where
    below : (found : Option Ticket) → t.id ≢ key → Finds ts key found → Finds (t ∷ ts) key found
    below none apart h = (apart, h)
    below (some u) apart (m, same) = (Memᴰ.tail m, same)

-- An order blocks a ticket where it is complete, or pending with an expiry that lies ahead.
abbrev pub IsBlocking : ℕ → String → Order → Type 0
IsBlocking now ticket_id o =
    (o.ticket_id ≡ ticket_id)
    × ((o.status ≡ complete)
        ⊎ (((o.status ≡ created) ⊎ (o.status ≡ awaiting_payment)) × (now < o.expires_at)))

-- The complete orders come first, and of two alike the one with the later expiry.
abbrev pub rank : Status → ℕ
rank complete = 0
rank _ = 1

abbrev pub IsBefore : Order → Order → Type 0
IsBefore o p =
    (rank o.status < rank p.status)
    ⊎ ((rank o.status ≡ rank p.status) × (p.expires_at ≤ o.expires_at))

-- No order blocks the ticket; or the order does, and comes before all that do.
abbrev pub Blocking : ℕ → String → List Order → Option Order → Type 0
Blocking now ticket_id orders none = All (λ o. IsBlocking now ticket_id o → ⊥) orders
Blocking now ticket_id orders (some o) =
    Memᴰ o orders
    × IsBlocking now ticket_id o
    × All (λ p. IsBlocking now ticket_id p → IsBefore o p) orders

status-blocking :
    (s : Status) (b : Bool)
    → (is_complete s || is_pending s && b) ≡ true
    → (s ≡ complete) ⊎ (((s ≡ created) ⊎ (s ≡ awaiting_payment)) × (b ≡ true))
status-blocking complete b h = inl refl
status-blocking created b h = inr (inl refl, h)
status-blocking awaiting_payment b h = inr (inr refl, h)
status-blocking canceled b h = cc

blocking-status :
    (s : Status) (b : Bool)
    → (s ≡ complete) ⊎ (((s ≡ created) ⊎ (s ≡ awaiting_payment)) × (b ≡ true))
    → (is_complete s || is_pending s && b) ≡ true
blocking-status s b (inl done) = rw done refl
blocking-status s b (inr (inl fresh, h)) = rw (fresh, h) refl
blocking-status s b (inr (inr waiting, h)) = rw (waiting, h) refl

both : (a b : Bool) → (a && b) ≡ true → (a ≡ true) × (b ≡ true)
both true b h = (refl, h)
both false b h = cc

blocks-IsBlocking :
    (now : ℕ) (ticket_id : String) (o : Order)
    → blocks now ticket_id o ≡ true
    → IsBlocking now ticket_id o
blocks-IsBlocking now ticket_id o h =
    let (same, open_now) = both (str_eq o.ticket_id ticket_id) _ h in
    (
      (eq_iff o.ticket_id ticket_id).0 same,
      elim (status-blocking o.status (ltb now o.expires_at) open_now) [
        | inl done ↦ inl done
        | inr (pending, ahead) ↦ inr (pending, ground (arith, ahead))
      ],
    )

IsBlocking-blocks :
    (now : ℕ) (ticket_id : String) (o : Order)
    → IsBlocking now ticket_id o
    → blocks now ticket_id o ≡ true
IsBlocking-blocks now ticket_id o (same, inl done) =
    rw ((eq_iff o.ticket_id ticket_id).1 same)
      (blocking-status o.status (ltb now o.expires_at) (inl done))
IsBlocking-blocks now ticket_id o (same, inr (pending, ahead)) =
    rw ((eq_iff o.ticket_id ticket_id).1 same)
      (blocking-status o.status (ltb now o.expires_at) (inr (pending, ground (arith, ahead))))

true-ne-false : {b : Bool} → b ≡ true → b ≡ false → ⊥
true-ne-false h k = cc

rank_of : (s : Status) → rank s ≡ (if is_complete s then 0 else 1)
rank_of created = refl
rank_of canceled = refl
rank_of awaiting_payment = refl
rank_of complete = refl

precedes-IsBefore : (o p : Order) → precedes o p ≡ true → IsBefore o p
precedes-IsBefore o p h = rw (rank_of o.status, rank_of p.status) (ground (arith, h))

precedes-not : (o p : Order) → precedes o p ≡ false → IsBefore p o
precedes-not o p h = rw (rank_of o.status, rank_of p.status) (ground (arith, h))

IsBefore-trans : (o p q : Order) → IsBefore o p → IsBefore p q → IsBefore o q
IsBefore-trans o p q (inl h) (inl k) = inl (omega (arith, h, k))
IsBefore-trans o p q (inl h) (inr (k, l)) = inl (omega (arith, h, k))
IsBefore-trans o p q (inr (h, l)) (inl k) = inl (omega (arith, h, k))
IsBefore-trans o p q (inr (h, l)) (inr (k, m)) = inr (omega (arith, h, k), omega (arith, l, m))

IsBefore-refl : (o : Order) → IsBefore o o
IsBefore-refl o = inr (refl, omega arith)

All-weaken :
    (P Q : Order → Type 0) (os : List Order) → ((o : Order) → P o → Q o) → All P os → All Q os
All-weaken P Q [] f h = tt
All-weaken P Q (o ∷ os) f (h, hs) = (f o h, All-weaken P Q os f hs)

better-Blocking :
    (now : ℕ) (ticket_id : String) (o : Order) (os : List Order) (found : Option Order)
    → IsBlocking now ticket_id o
    → Blocking now ticket_id os found
    → Blocking now ticket_id (o ∷ os) (some (better o found))
better-Blocking now ticket_id o os none h none_below = (
  Memᴰ.head refl,
  h,
  (
    λ b. IsBefore-refl o,
    All-weaken (λ p. IsBlocking now ticket_id p → ⊥)
        (λ p. IsBlocking now ticket_id p → IsBefore o p) os (λ p free b. absurd (free b))
        none_below,
  ),
)
better-Blocking now ticket_id o os (some p) h (m, b, first) = elim (Bool-cases (precedes o p)) [
  | inl before ↦
      let sooner = precedes-IsBefore o p before in
      let taken : better o (some p) ≡ o = rw before refl in
      subst (λ x. Blocking now ticket_id (o ∷ os) (some x)) (sym taken)
        (
          Memᴰ.head refl,
          h,
          (
            λ c. IsBefore-refl o,
            All-weaken (λ q. IsBlocking now ticket_id q → IsBefore p q)
                (λ q. IsBlocking now ticket_id q → IsBefore o q) os
                (λ q after c. IsBefore-trans o p q sooner (after c)) first,
          ),
        )
  | inr behind ↦
      let taken : better o (some p) ≡ p = rw behind refl in
      subst (λ x. Blocking now ticket_id (o ∷ os) (some x)) (sym taken)
        (Memᴰ.tail m, b, (λ c. precedes-not o p behind, first))
]

skip-Blocking :
    (now : ℕ) (ticket_id : String) (o : Order) (os : List Order) (found : Option Order)
    → (IsBlocking now ticket_id o → ⊥)
    → Blocking now ticket_id os found
    → Blocking now ticket_id (o ∷ os) found
skip-Blocking now ticket_id o os none free h = (free, h)
skip-Blocking now ticket_id o os (some p) free (m, b, first) =
    (Memᴰ.tail m, b, (λ c. absurd (free c), first))

pub find_blocking_order-Blocking :
    (now : ℕ) (ticket_id : String) (orders : List Order)
    → Blocking now ticket_id orders (find_blocking_order now ticket_id orders)
unfolding find_blocking_order
find_blocking_order-Blocking now ticket_id [] = tt
find_blocking_order-Blocking now ticket_id (o ∷ os) =
    let below = find_blocking_order-Blocking now ticket_id os in
    elim (Bool-cases (blocks now ticket_id o)) [
      | inl stands ↦ rw stands (
          better-Blocking now ticket_id o os (find_blocking_order now ticket_id os)
            (blocks-IsBlocking now ticket_id o stands) below)
      | inr free ↦ rw free (
          skip-Blocking now ticket_id o os (find_blocking_order now ticket_id os)
            (λ b. true-ne-false (IsBlocking-blocks now ticket_id o b) free) below)
    ]
