-- ===== src/Orders/Repository/Updates.antt =====
-- The update of one row by its key, as a relation between the rows before and after.
use polyglot_ticketing_v.Base.{
  ◌+◌, String, ◌≡◌, refl, ap, Bool, true, false, ◌||◌, Option, none, some, List, [], ◌∷◌, str_eq,
  eq_iff, if◌then◌else◌,
}
use polyglot_ticketing_v.Orders.{Status, created, canceled, awaiting_payment, complete, Order}
use polyglot_ticketing_v.Orders.Repository.{update_order, has_order}

abbrev pub moved : Status → Order → Order
moved status o = record o { status = status; aggregate_version = o.aggregate_version + 1 }

pub or_left : (a b : Bool) → a ≡ true → (a || b) ≡ true
or_left true b h = refl
or_left false b h = cc

pub or_right : (a b : Bool) → b ≡ true → (a || b) ≡ true
or_right true b h = refl
or_right false b h = h

-- The transitions of an order.
abbrev pub allowed : Status → Status → Bool
allowed created awaiting_payment = true
allowed created complete = true
allowed created canceled = true
allowed awaiting_payment complete = true
allowed awaiting_payment canceled = true
allowed _ _ = false

-- The row with the key is moved, or there is none that the condition takes.
pub data Update (id : String) (condition : Order → Bool) (status : Status)
    : List Order → Option Order → List Order → Type 0 where
  missing : Update id condition status [] none []
  here :
      (o : Order) (os : List Order)
      → o.id ≡ id
      → condition o ≡ true
      → Update id condition status (o ∷ os) (some (moved status o)) (moved status o ∷ os)
  refused :
      (o : Order) (os : List Order) → o.id ≡ id → Update id condition status (o ∷ os) none (o ∷ os)
  later :
      (o : Order) {os rest : List Order} {found : Option Order}
      → str_eq o.id id ≡ false
      → Update id condition status os found rest
      → Update id condition status (o ∷ os) found (o ∷ rest)

module _ (id : String) (condition : Order → Bool) (status : Status) where
  abbrev ResultOf : List Order → Option Order × List Order → Type 0
  ResultOf os (found, rest) = Update id condition status os found rest

  pub update_order-Update :
      (os : List Order)
      → Update id condition status os
          (update_order id condition status os).0
          (update_order id condition status os).1
  unfolding update_order
  update_order-Update [] = missing
  update_order-Update (o ∷ os) =
      let below = update_order-Update os in
      let (found, rest) = update_order id condition status os in
      at_row (str_eq o.id id) refl (condition o) refl below
    where
      at_row :
          (same : Bool)
          → str_eq o.id id ≡ same
          → (takes : Bool) → condition o ≡ takes
          → Update id condition status os
              (update_order id condition status os).0
              (update_order id condition status os).1
          → ResultOf (o ∷ os) (
              if same
              then (if takes then (some (moved status o), moved status o ∷ os) else (none, o ∷ os))
              else (
                (update_order id condition status os).0,
                o ∷ (update_order id condition status os).1,
              ))
      at_row true key true takes below = here o os ((eq_iff o.id id).0 key) takes
      at_row true key false takes below = refused o os ((eq_iff o.id id).0 key)
      at_row false key takes h below = later o key below

  pub Update-none : {os rest : List Order} → Update id condition status os none rest → rest ≡ os
  Update-none missing = refl
  Update-none (refused o os key) = refl
  Update-none (later o key below) = ap (λ r. o ∷ r) (Update-none below)

  -- The keys stay.
  pub Update-has_order :
      (k : String) {os rest : List Order} {found : Option Order}
      → Update id condition status os found rest
      → has_order k rest ≡ has_order k os
  Update-has_order k missing = refl
  Update-has_order k (here o os key takes) = refl
  Update-has_order k (refused o os key) = refl
  Update-has_order k (later o key below) = ap (λ b. str_eq o.id k || b) (Update-has_order k below)

  -- The row that is returned has the key.
  pub Update-some :
      {os rest : List Order} {m : Order}
      → Update id condition status os (some m) rest
      → (m.id ≡ id) × (has_order id os ≡ true)
  Update-some (here o os key takes) = (key, or_left _ _ ((eq_iff o.id id).1 key))
  Update-some (later o key below) = let (k, has) = Update-some below in (k, or_right _ _ has)
