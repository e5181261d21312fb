-- ===== src/Boundary/Wiring.antt =====
-- The settings of the services, against each other.
use polyglot_ticketing_v.Base.{
  String, true, ◌≡◌, ◌↔◌, refl, sym, ap, ◌∙◌, some, Bool, false, not, if◌then◌else◌, Option, [],
  ◌∷◌, Result, ok, none, ok_injective, >>=-eq-ok, default_to, str_eq,
}
use polyglot_ticketing_v.Base.Text.{append}
use polyglot_ticketing_v.Value.{Value}
use polyglot_ticketing_v.Platform.Numbers.{JsNumber, NumberApi}
use polyglot_ticketing_v.Platform.MetricsServer.{Response, serve_metrics}
use polyglot_ticketing_v.Gateway.Startup.{identity_module, create_api_gateway_application}
use polyglot_ticketing_v.Identity.Auth.{
  Environment, AuthOptions, EmailSender, create_identity_auth_context, create_email_sender,
  required_environment_variable,
}
use polyglot_ticketing_v.Identity.Startup.{create_identity_microservice}
use polyglot_ticketing_v.Tracing.{start_tracing}

-- Where the two services are given one origin of the user's application, or none, the origin from
-- which the gateway takes requests with credentials is the only one that Better Auth trusts.
pub origins_agree :
    (numbers : NumberApi) (gateway identity : Environment) (options : AuthOptions)
    (sender : EmailSender)
    → gateway "TICKETING_USER_APP_ORIGIN" ≡ identity "TICKETING_USER_APP_ORIGIN"
    → create_identity_auth_context numbers identity ≡ ok (options, sender)
    → options.trusted_origins ≡ (create_api_gateway_application numbers gateway).cors_origin ∷ []
unfolding create_identity_auth_context create_api_gateway_application
origins_agree numbers gateway identity options sender same made =
    let (connection_string, e1, h1) =
      >>=-eq-ok (required_environment_variable identity "DATABASE_URL") _ made in
    let (email_sender, e2, h2) = >>=-eq-ok (create_email_sender numbers identity) _ h1 in
    let (base_url, e3, h3) =
      >>=-eq-ok (required_environment_variable identity "BETTER_AUTH_URL") _ h2 in
    let (secret, e4, h4) =
      >>=-eq-ok (required_environment_variable identity "BETTER_AUTH_SECRET") _ h3 in
    ap (λ (c : AuthOptions × EmailSender). c.0.trusted_origins) (sym (ok_injective h4))
    ∙ ap (λ o. default_to "http://localhost:3001" o ∷ []) (sym same)

-- Where neither service is given an address, the gateway's client of Identity asks the port on which
-- Identity listens, for the same package of the same contract.
pub identity_module-microservice :
    (numbers : NumberApi) (shown : JsNumber → String) (gateway identity : Environment)
    → gateway "IDENTITY_GRPC_URL" ≡ none
    → identity "GRPC_PORT" ≡ none
    → shown (numbers.number "50051") ≡ "50051"
    → ((identity_module gateway).url ≡ append "localhost:" "50051")
      × ((create_identity_microservice numbers shown identity).url ≡ append "0.0.0.0:" "50051")
      × ((identity_module gateway).proto_package
          ≡ (create_identity_microservice numbers shown identity).proto_package)
      × ((identity_module gateway).proto_path
          ≡ (create_identity_microservice numbers shown identity).proto_path)
unfolding identity_module create_identity_microservice
identity_module-microservice numbers shown gateway identity client server text = (
  rw client,
  ap (λ p. append "0.0.0.0:" (shown (numbers.number (default_to "50051" p)))) server
      ∙ ap (append "0.0.0.0:") text,
  refl,
  refl,
)

none-ne-some : {t : String} → ◌≡◌ {A = Option String} none (some t) → ⊥
none-ne-some h = cc

abbrev answer : Bool → String → String → Result Value Response
answer asks content_type text =
    if not asks
    then ok (record { status_code = 404; content_type = none; body = none })
    else ok (record { status_code = 200; content_type = some content_type; body = some text })

answer-metrics_iff :
    (asks : Bool) (content_type text : String)
    → (asks ≡ true) ↔ (
        (response : Response) × (answer asks content_type text ≡ ok response)
        × (response.body ≡ some text))
answer-metrics_iff true content_type text = (
  λ h. (
    record { status_code = 200; content_type = some content_type; body = some text },
    refl,
    refl,
  ),
  λ r. refl,
)
answer-metrics_iff false content_type text = (
  λ h. cc,
  λ (response, served, body).
      absurd (none-ne-some (ap (λ (r : Response). r.body) (ok_injective served) ∙ body)),
)

-- The requests that are not traced are those that the server of the metrics answers with the
-- metrics.
pub start_tracing-ignores_iff :
    (env : Environment) (name url content_type text : String)
    → ((start_tracing env name).ignores url ≡ true) ↔ (
        (response : Response) × (serve_metrics url content_type (ok text) ≡ ok response)
        × (response.body ≡ some text))
unfolding start_tracing serve_metrics
start_tracing-ignores_iff env name url content_type text =
    answer-metrics_iff (str_eq url "/metrics") content_type text
