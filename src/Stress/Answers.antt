-- ===== src/Stress/Answers.antt =====
-- What a call that returns has been answered.
use polyglot_ticketing_v.Base.{
  ℕ, String, ◌≡◌, sym, ap, subst, ◌∙◌, true, Bool-cases, Option, not, Result, ok, err, ok_injective,
  err-ne-ok, ◌==◌, ==_iff, inl, inr, if◌then◌else◌,
}
use polyglot_ticketing_v.Base.Text.{append}
use polyglot_ticketing_v.Base.Calls.{pure, throw, lift, >>=-ok, lift-ok}
use polyglot_ticketing_v.Value.{Value}
use polyglot_ticketing_v.Stress.{
  Engine, Failure, stress_request_error, Config, Request, Response, Ticket, Answer, shows, body_of,
  is_ok, assert_status, assert_ticket, fetched, read_text, request_json,
}

module _ (engine : Engine) {S : Type 0} (fetch : Request → S → Result Value Response × S)
    (config : Config) where
  pub assert_status-ok :
      (answer : Answer) (expected : ℕ) (action : String)
      → assert_status engine answer expected action ≡ ok tt
      → answer.1 ≡ expected
  unfolding assert_status
  assert_status-ok (body, status) expected action h = elim (Bool-cases (status == expected)) [
    | inl same ↦ (==_iff status expected).0 same
    | inr other ↦ absurd (err-ne-ok (rw (other, if◌then◌else◌) at h))
  ]

  pub assert_ticket-ok :
      (body : Value) (ticket : Ticket) (action : String)
      → assert_ticket engine body ticket action ≡ ok tt
      → shows body ticket ≡ true
  unfolding assert_ticket
  assert_ticket-ok body ticket action h = elim (Bool-cases (shows body ticket)) [
    | inl same ↦ same
    | inr other ↦ absurd (err-ne-ok (rw (other, if◌then◌else◌) at h))
  ]

  fetched-ok :
      (url : String) (r : Result Value Response × S) {response : Response} {t : S}
      → fetched engine fetch url r ≡ (ok response, t)
      → r ≡ (ok response, t)
  fetched-ok url (ok response, s) h = ap with_value h
    where
      with_value : Result Failure Response × S → Result Value Response × S
      with_value (ok response, s) = (ok response, s)
      with_value (err e, s) = (ok response, s)
  fetched-ok url (err e, s) h = absurd (err-ne-ok (ap (λ r. r.0) h))

  read_text-ok :
      (r : Result Value String) {text : String} → read_text engine fetch r ≡ ok text → r ≡ ok text
  read_text-ok (ok text) h = ap ok (ok_injective h)
  read_text-ok (err e) h = absurd (err-ne-ok h)

  answered :
      (url : String) (status : ℕ) (raw_body : String) (answer : Answer) (s t : S)
      → (if not (is_ok engine status)
            then throw (
                stress_request_error
                  (append "Request to " (append url (append " returned " (engine.decimal status))))
                  status
                  (body_of engine raw_body))
            else pure (body_of engine raw_body, status))
          s
        ≡ (ok answer, t)
      → (answer ≡ (body_of engine raw_body, status)) × (s ≡ t)
  answered url status raw_body answer s t h = elim (Bool-cases (is_ok engine status)) [
    | inl fine ↦
        let e = rw (fine, if◌then◌else◌) at h in
        (sym (ok_injective (ap (λ r. r.0) e)), ap (λ r. r.1) e)
    | inr refused ↦ absurd (err-ne-ok (ap (λ r. r.0) (rw (refused, if◌then◌else◌) at h)))
  ]

  -- A request that returns: what the server has answered.
  pub request_json-ok :
      (method : String) (body : Option Value) (url : String) (s t : S) (answer : Answer)
      → request_json engine fetch config method body url s ≡ (ok answer, t)
      → (response : Response) × (raw_body : String) × (fetch
            (record { method = method; url = url; cookie = config.cookie; body = body })
            s
          ≡ (ok response, t))
        × (response.text ≡ ok raw_body)
        × (answer ≡ (body_of engine raw_body, response.status))
  unfolding request_json
  request_json-ok method body url s t answer h =
      let sent : Request = record {
        method = method;
        url = url;
        cookie = config.cookie;
        body = body;
      } in
      let (response, u, got, h1) = >>=-ok (λ x. fetched engine fetch url (fetch sent x)) _ h in
      let (raw_body, v, read, h2) = >>=-ok (lift (read_text engine fetch response.text)) _ h1 in
      let (same, read_at) = lift-ok (read_text engine fetch response.text) read in
      let (answer_is, last) = answered url response.status raw_body answer v t h2 in
      (
        response,
        raw_body,
        subst (λ x. fetch sent s ≡ (ok response, x)) (read_at ∙ last)
            (fetched-ok url (fetch sent s) got),
        read_text-ok response.text same,
        answer_is,
      )
