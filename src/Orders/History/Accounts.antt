-- ===== src/Orders/History/Accounts.antt =====
-- The outbox against the orders: what an event in it says of a row.
use polyglot_ticketing_v.Base.{
  ℕ, suc, ◌+◌, String, ◌≡◌, refl, sym, ap, subst, ◌∙◌, Bool, true, false, ◌&&◌, ◌||◌, Bool-cases,
  inl, inr, Option, some, List, [], ◌∷◌, All, leb, ◌==◌, str_eq, eq_iff, if◌then◌else◌, arith,
}
use polyglot_ticketing_v.Orders.{
  Status, created, awaiting_payment, Order, OutboxEvent, Database, is_canceled,
}
use polyglot_ticketing_v.Orders.Repository.{has_order}
use polyglot_ticketing_v.Orders.Repository.Updates.{
  moved, allowed, Update, missing, here, refused, later, Update-has_order,
}
use polyglot_ticketing_v.Orders.History.{creations, cancellations}

-- The versions that an order can have, by its status.
abbrev pub version_fits : Status → ℕ → Bool
version_fits created v = v == 0
version_fits awaiting_payment v = v == 1
version_fits _ v = leb 1 v && leb v 2

-- An order with one OrderCreated event, one OrderCanceled event exactly where it is canceled, and a
-- version that counts its transitions.
pub record Recorded (events : List OutboxEvent) (o : Order) : Type 0 where
  pub creation : creations o.id events ≡ 1
  pub cancellation : cancellations o.id events ≡ (if is_canceled o.status then 1 else 0)
  pub version : version_fits o.status o.aggregate_version ≡ true

abbrev pub Distinct : List Order → Type 0
Distinct [] = Unit
Distinct (o ∷ os) = (has_order o.id os ≡ false) × Distinct os

pub record Accounted (db : Database) : Type 0 where
  pub recorded : All (Recorded db.outbox_events) db.orders
  pub distinct : Distinct db.orders
  pub fresh :
      (k : String)
      → has_order k db.orders ≡ false
      → (creations k db.outbox_events ≡ 0) × (cancellations k db.outbox_events ≡ 0)

-- Two logs that differ at most in the events of one order.
pub record Agree (id : String) (before after : List OutboxEvent) : Type 0 where
  pub creation : (k : String) → str_eq id k ≡ false → creations k after ≡ creations k before
  pub cancellation :
      (k : String) → str_eq id k ≡ false → cancellations k after ≡ cancellations k before

pub true-ne-false : true ≡ false → ⊥
true-ne-false h = cc

pub or_false : (a b : Bool) → (a || b) ≡ false → (a ≡ false) × (b ≡ false)
or_false true b h = cc
or_false false b h = (refl, h)

pub str_eq_flip : (s t : String) → str_eq s t ≡ false → str_eq t s ≡ false
str_eq_flip s t h = elim (Bool-cases (str_eq t s)) [
  | inl same ↦ absurd (true-ne-false (sym ((eq_iff s t).1 (sym ((eq_iff t s).0 same))) ∙ h))
  | inr other ↦ other
]

module _ (id : String) (before after : List OutboxEvent) (agree : Agree id before after) where
  pub All-Agree :
      (os : List Order)
      → has_order id os ≡ false
      → All (Recorded before) os
      → All (Recorded after) os
  All-Agree [] absent h = tt
  All-Agree (o ∷ os) absent (row, rows) =
      let (other, below) = or_false (str_eq o.id id) (has_order id os) absent in
      let apart = str_eq_flip o.id id other in
      (
        record {
          creation = agree.creation o.id apart ∙ row.creation;
          cancellation = agree.cancellation o.id apart ∙ row.cancellation;
          version = row.version;
        },
        All-Agree os below rows,
      )

version-moves :
    (old new : Status) (v : ℕ)
    → allowed old new ≡ true
    → version_fits old v ≡ true
    → version_fits new (v + 1) ≡ true
version-moves old new v change fits = ground arith

allowed-open : (old new : Status) → allowed old new ≡ true → is_canceled old ≡ false
allowed-open old new h = ground arith

module _ (id : String) (condition : Order → Bool) (status : Status)
    (moves : (o : Order) → condition o ≡ true → allowed o.status status ≡ true)
    (before after : List OutboxEvent) (agree : Agree id before after)
    (creation : creations id after ≡ creations id before)
    (cancellation : cancellations id after ≡ (
      if is_canceled status then suc (cancellations id before) else cancellations id before)) where
  Recorded-moved :
      (o : Order)
      → o.id ≡ id
      → condition o ≡ true
      → Recorded before o
      → Recorded after (moved status o)
  Recorded-moved o key takes row =
      let none_before : cancellations id before ≡ 0 =
        ap (λ k. cancellations k before) (sym key)
        ∙ row.cancellation
        ∙ ap (λ b. if b then 1 else 0) (allowed-open o.status status (moves o takes)) in
      record {
        creation =
            ap (λ k. creations k after) key
            ∙ creation
            ∙ ap (λ k. creations k before) (sym key)
            ∙ row.creation;
        cancellation =
            ap (λ k. cancellations k after) key
            ∙ cancellation
            ∙ ap (λ n. if is_canceled status then suc n else n) none_before;
        version = version-moves o.status status o.aggregate_version (moves o takes) row.version;
      }

  pub Update-Recorded :
      {os rest : List Order} {m : Order}
      → Update id condition status os (some m) rest
      → Distinct os
      → All (Recorded before) os
      → All (Recorded after) rest
  Update-Recorded (here o os key takes) (alone, distinct) (row, rows) = (
    Recorded-moved o key takes row,
    All-Agree id before after agree os (subst (λ k. has_order k os ≡ false) key alone) rows,
  )
  Update-Recorded (later o other below) (alone, distinct) (row, rows) =
      let apart = str_eq_flip o.id id other in
      (
        record {
          creation = agree.creation o.id apart ∙ row.creation;
          cancellation = agree.cancellation o.id apart ∙ row.cancellation;
          version = row.version;
        },
        Update-Recorded below distinct rows,
      )

pub Update-Distinct :
    (id : String) (condition : Order → Bool) (status : Status) {os rest : List Order}
    {found : Option Order}
    → Update id condition status os found rest
    → Distinct os
    → Distinct rest
Update-Distinct id condition status missing distinct = tt
Update-Distinct id condition status (here o os key takes) distinct = distinct
Update-Distinct id condition status (refused o os key) distinct = distinct
Update-Distinct id condition status (later o other below) (alone, distinct) = (
  Update-has_order id condition status o.id below ∙ alone,
  Update-Distinct id condition status below distinct,
)
