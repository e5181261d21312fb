-- ===== src/Gateway/Requests/Acceptance.antt =====
-- Which bodies the pipe lets through, and what the handlers then get.
use polyglot_ticketing_v.Base.{
  ℕ, suc, ◌≤◌, ℤ, pos, negsuc, String, Bool, true, false, ◌&&◌, Option, none, some, List, [], ◌∷◌,
  ◌≡◌, ◌≢◌, ◌↔◌, refl, sym, subst, ◌∙◌, ap, ok, all, contains, lookup, eq_iff, arith, ok_injective,
  err-ne-ok,
}
use polyglot_ticketing_v.Platform.Numbers.{max_safe_integer, whole}
use polyglot_ticketing_v.Platform.ClassValidator.{
  Body, BodyValue, text, number, Rules, ValidationError, ClassValidator, accepts, keys, is_text,
  is_present, is_whole, at_least, at_most, is_string, is_not_empty, is_int, min, max,
}
use polyglot_ticketing_v.Gateway.Requests.{receive, hand_on, validation_options}
use polyglot_ticketing_v.Gateway.Requests.Dtos.{create_ticket_dto, read_ticket, text_of, price_of}
use polyglot_ticketing_v.Gateway.Tickets.{TicketBody}

hand_on-ok {ℓ} :
    {A : Type ℓ} (a dto : A) (es : List ValidationError)
    → (hand_on a es ≡ ok dto) ↔ ((es ≡ []) × (a ≡ dto))
hand_on-ok a dto [] = (λ h. (refl, ok_injective h), λ h. rw (h.1))
hand_on-ok a dto (e ∷ es) = (λ h. absurd (err-ne-ok h), λ h. cc)

-- The pipe hands on the accepted bodies, as they are read.
pub receive-ok_iff {ℓ} :
    {A : Type ℓ} (v : ClassValidator) (rules : Rules) (read : Body → A) (body : Body) (dto : A)
    → (receive v rules read body ≡ ok dto)
      ↔ ((accepts v.passes rules body ≡ true) × (read body ≡ dto))
unfolding receive
receive-ok_iff v rules read body dto =
    let (to, from) = hand_on-ok (read body) dto (v.validate validation_options rules body) in
    let (accepted, clean) = v.validate-accepts validation_options rules body refl refl in
    (λ h. (accepted ((to h).0), (to h).1), λ h. from (clean (h.0), h.1))

and-true : (a b : Bool) → (a && b) ≡ true → (a ≡ true) × (b ≡ true)
and-true true b h = (refl, h)
and-true false b h = cc

text-of_passes :
    (o : Option BodyValue)
    → is_text o ≡ true
    → is_present o ≡ true
    → (s : String) × (o ≡ some (text s)) × (s ≢ "")
text-of_passes (some (text s)) string present = (s, refl, λ empty. ground (arith, eq_iff s ""))
text-of_passes none string present = cc
text-of_passes _ string present = cc

whole-of_passes :
    (o : Option BodyValue) → is_whole o ≡ true → (z : ℤ) × (o ≡ some (number (whole z)))
whole-of_passes (some (number (whole z))) int = (z, refl)
whole-of_passes none int = cc
whole-of_passes _ int = cc

within :
    (low high : ℕ) (z : ℤ)
    → at_least (suc low) z ≡ true
    → at_most high z ≡ true
    → (n : ℕ) × (z ≡ pos n) × (suc low ≤ n) × (n ≤ high)
within low high (pos n) above below = (n, refl, ground arith, ground arith)
within low high (negsuc n) above below = cc

-- The bodies of POST and PUT /tickets.
pub record IsTicket (body : Body) (dto : TicketBody) : Type 0 where
  pub title : lookup "title" body ≡ some (text dto.title)
  pub titled : dto.title ≢ ""
  pub price : lookup "price" body ≡ some (number (whole (pos dto.price)))
  pub positive : 1 ≤ dto.price
  pub bounded : dto.price ≤ max_safe_integer
  pub only : all (contains ("title" ∷ "price" ∷ [])) (keys body) ≡ true

module _ (v : ClassValidator) where
  title_passes :
      (o : Option BodyValue)
      → v.passes is_string o ≡ true
      → v.passes is_not_empty o ≡ true
      → (s : String) × (o ≡ some (text s)) × (s ≢ "")
  title_passes o string present =
      text-of_passes o (sym (v.passes-is_string o) ∙ string)
        (sym (v.passes-is_not_empty o) ∙ present)

  price_passes :
      (high : ℕ) (o : Option BodyValue)
      → v.passes is_int o ≡ true
      → v.passes (min 1) o ≡ true
      → v.passes (max high) o ≡ true
      → (n : ℕ) × (o ≡ some (number (whole (pos n)))) × (1 ≤ n) × (n ≤ high)
  price_passes high o int above below =
      let (z, is) = whole-of_passes o (sym (v.passes-is_int o) ∙ int) in
      let (n, at, low, most) =
        within 0 high z (sym (v.passes-min 1 z) ∙ subst (λ w. v.passes (min 1) w ≡ true) is above)
          (sym (v.passes-max high z) ∙ subst (λ w. v.passes (max high) w ≡ true) is below) in
      (n, is ∙ ap (λ m. some (number (whole m))) at, low, most)

  title_passed :
      (s : String)
      → s ≢ ""
      → (v.passes is_string (some (text s)) ≡ true) × (v.passes is_not_empty (some (text s)) ≡ true)
  title_passed s ne = (
    v.passes-is_string (some (text s)),
    v.passes-is_not_empty (some (text s)) ∙ ground (arith, eq_iff s ""),
  )

  price_passed :
      (high n : ℕ)
      → 1 ≤ n
      → n ≤ high
      → (v.passes is_int (some (number (whole (pos n)))) ≡ true)
        × (v.passes (min 1) (some (number (whole (pos n)))) ≡ true)
        × (v.passes (max high) (some (number (whole (pos n)))) ≡ true)
  price_passed high n low most = (
    v.passes-is_int (some (number (whole (pos n)))),
    v.passes-min 1 (pos n) ∙ ground arith,
    v.passes-max high (pos n) ∙ ground arith,
  )

-- The tests of a class with two checks on its first property and three on its second.
two_and_three :
    (a b c d e f : Bool)
    → (((a && (b && true)) && ((c && (d && (e && true))) && true) && f) ≡ true)
      ↔ ((a ≡ true) × (b ≡ true) × (c ≡ true) × (d ≡ true) × (e ≡ true) × (f ≡ true))
two_and_three a b c d e f =
    (λ h. ground arith, λ (ha, hb, hc, hd, he, hf). rw (ha, hb, hc, hd, he, hf))

IsTicket-of_parts :
    (body : Body) (dto : TicketBody) (s : String) (n : ℕ)
    → lookup "title" body ≡ some (text s)
    → s ≢ ""
    → lookup "price" body ≡ some (number (whole (pos n)))
    → 1 ≤ n
    → n ≤ max_safe_integer
    → all (contains ("title" ∷ "price" ∷ [])) (keys body) ≡ true
    → read_ticket body ≡ dto
    → IsTicket body dto
IsTicket-of_parts body dto s n title titled price low high only reads =
    let named : s ≡ dto.title = sym (ap text_of title) ∙ ap (λ (d : TicketBody). d.title) reads in
    let priced : n ≡ dto.price = sym (ap price_of price) ∙ ap (λ (d : TicketBody). d.price) reads in
    record {
      title = title ∙ rw named;
      titled = subst (λ t. t ≢ "") named titled;
      price = price ∙ rw priced;
      positive = omega (arith, low, priced);
      bounded = subst (λ m. m ≤ max_safe_integer) priced high;
      only = only;
    }

-- POST and PUT /tickets: the pipe hands a title and a price on exactly for the body with those two
-- properties alone, where the title is a text that is not empty and the price is a whole number
-- from 1 to 2^53 - 1.
pub receive-IsTicket_iff :
    (v : ClassValidator) (body : Body) (dto : TicketBody)
    → (receive v create_ticket_dto read_ticket body ≡ ok dto) ↔ IsTicket body dto
receive-IsTicket_iff v body dto =
    let (to, from) = receive-ok_iff v create_ticket_dto read_ticket body dto in
    let title = lookup "title" body in
    let price = lookup "price" body in
    let (tests, tested) =
      two_and_three (v.passes is_string title) (v.passes is_not_empty title) (v.passes is_int price)
        (v.passes (min 1) price) (v.passes (max max_safe_integer) price)
        (all (contains ("title" ∷ "price" ∷ [])) (keys body)) in
    (
      λ h.
          let (accepted, reads) = to h in
          let (string, present, int, above, below, only) = tests accepted in
          let (s, is_title, titled) = title_passes v title string present in
          let (n, is_price, low, high) = price_passes v max_safe_integer price int above below in
          IsTicket-of_parts body dto s n is_title titled is_price low high only reads,
      λ t.
          let (string, present) = title_passed v dto.title t.titled in
          let (int, above, below) =
            price_passed v max_safe_integer dto.price t.positive t.bounded in
          from (
            tested (
              ap (v.passes is_string) t.title ∙ string,
              ap (v.passes is_not_empty) t.title ∙ present,
              ap (v.passes is_int) t.price ∙ int,
              ap (v.passes (min 1)) t.price ∙ above,
              ap (v.passes (max max_safe_integer)) t.price ∙ below,
              t.only,
            ),
            rw (t.title, t.price),
          ),
    )
