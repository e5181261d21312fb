-- ===== src/Identity/Auth/Configuration.antt =====
-- When the service is configured, and what its mails hold.
use polyglot_ticketing_v.Base.{
  ok_injective, String, ◌≡◌, ◌≢◌, ◌↔◌, refl, sym, ap, ◌∙◌, Option, none, some, List, [], ◌∷◌,
  Result, ok, err, >>=-eq-ok, str_eq, eq_iff, if◌then◌else◌, arith, All,
}
use polyglot_ticketing_v.Base.Text.{append}
use polyglot_ticketing_v.Value.{Value}
use polyglot_ticketing_v.Platform.Numbers.{NumberApi}
use polyglot_ticketing_v.Platform.Urls.{UrlApi}
use polyglot_ticketing_v.Identity.Auth.{
  Environment, not_configured, required_environment_variable, Mail, EmailSender,
  create_email_sender, create_verification_url, send_verification_email, AuthOptions,
  create_identity_auth_context,
}

-- The variable is set to a text that is not empty.
abbrev pub IsConfigured : Environment → String → Type 0
IsConfigured env name = (value : String) × (env name ≡ some value) × (value ≢ "")

required_environment_variable-ok :
    (env : Environment) (name value : String)
    → required_environment_variable env name ≡ ok value
    → IsConfigured env name
unfolding required_environment_variable
required_environment_variable-ok env name value h = go (env name) refl h
  where
    go :
        (o : Option String)
        → env name ≡ o
        → (elim o as (λ x. Result Value String) [
          | none ↦ err (not_configured name)
          | some v ↦ if str_eq v "" then err (not_configured name) else ok v
        ])
          ≡ ok value
        → IsConfigured env name
    go none e k = absurd (ground arith)
    go (some v) e k = (v, e, λ empty. ground (arith, eq_iff v "", empty))

IsConfigured-required :
    (env : Environment) (name : String)
    → IsConfigured env name
    → (value : String) × (required_environment_variable env name ≡ ok value)
unfolding required_environment_variable
IsConfigured-required env name (value, set, full) =
    (value, rw (set, required_environment_variable) (ground (arith, eq_iff value "", full)))

abbrev pub required_variables : List String
required_variables =
    "DATABASE_URL" ∷ "SMTP_HOST" ∷ "SMTP_PORT" ∷ "SMTP_FROM" ∷ "BETTER_AUTH_URL"
    ∷ "BETTER_AUTH_SECRET" ∷ []

module _ (numbers : NumberApi) (env : Environment) where
  create_email_sender-ok :
      (sender : EmailSender)
      → create_email_sender numbers env ≡ ok sender
      → IsConfigured env "SMTP_HOST" × IsConfigured env "SMTP_PORT" × IsConfigured env "SMTP_FROM"
  unfolding create_email_sender
  create_email_sender-ok sender h =
      let (host, e1, h1) = >>=-eq-ok (required_environment_variable env "SMTP_HOST") _ h in
      let (port, e2, h2) = >>=-eq-ok (required_environment_variable env "SMTP_PORT") _ h1 in
      let (from, e3, h3) = >>=-eq-ok (required_environment_variable env "SMTP_FROM") _ h2 in
      (
        required_environment_variable-ok env "SMTP_HOST" host e1,
        required_environment_variable-ok env "SMTP_PORT" port e2,
        required_environment_variable-ok env "SMTP_FROM" from e3,
      )

  context-ok :
      (context : AuthOptions × EmailSender)
      → create_identity_auth_context numbers env ≡ ok context
      → All (IsConfigured env) required_variables
  unfolding create_identity_auth_context
  context-ok context h =
      let (database, e1, h1) = >>=-eq-ok (required_environment_variable env "DATABASE_URL") _ h in
      let (sender, e2, h2) = >>=-eq-ok (create_email_sender numbers env) _ h1 in
      let (base, e3, h3) = >>=-eq-ok (required_environment_variable env "BETTER_AUTH_URL") _ h2 in
      let (secret, e4, h4) =
        >>=-eq-ok (required_environment_variable env "BETTER_AUTH_SECRET") _ h3 in
      let (host, port, from) = create_email_sender-ok sender e2 in
      (
        required_environment_variable-ok env "DATABASE_URL" database e1,
        (
          host,
          (
            port,
            (
              from,
              (
                required_environment_variable-ok env "BETTER_AUTH_URL" base e3,
                (required_environment_variable-ok env "BETTER_AUTH_SECRET" secret e4, tt),
              ),
            ),
          ),
        ),
      )

  context-made :
      All (IsConfigured env) required_variables
      → (context : AuthOptions × EmailSender) × (create_identity_auth_context numbers env
          ≡ ok context)
  unfolding create_identity_auth_context create_email_sender
  context-made (database, (host, (port, (from, (base, (secret, done)))))) =
      let (v1, e1) = IsConfigured-required env "DATABASE_URL" database in
      let (v2, e2) = IsConfigured-required env "SMTP_HOST" host in
      let (v3, e3) = IsConfigured-required env "SMTP_PORT" port in
      let (v4, e4) = IsConfigured-required env "SMTP_FROM" from in
      let (v5, e5) = IsConfigured-required env "BETTER_AUTH_URL" base in
      let (v6, e6) = IsConfigured-required env "BETTER_AUTH_SECRET" secret in
      rw (e1, e2, e3, e4, e5, e6) (_, refl)

  -- The service comes up exactly where each variable that it needs is set to a text that is not
  -- empty.
  pub create_identity_auth_context-IsConfigured_iff :
      ((context : AuthOptions × EmailSender) × (create_identity_auth_context numbers env
          ≡ ok context))
      ↔ All (IsConfigured env) required_variables
  create_identity_auth_context-IsConfigured_iff =
      (λ made. context-ok made.0 made.1, λ set. context-made set)

-- The mail that is sent for a token goes to the user, and its text ends with a URL from which the
-- same token is read.
pub send_verification_email-token :
    (urls : UrlApi) (env : Environment) (sender : EmailSender) (user_email token : String)
    (mail : Mail)
    → send_verification_email urls env sender user_email token ≡ ok mail
    → (mail.recipient ≡ user_email)
      × (link : String) × (url : urls.Url) × (mail.text ≡ append "Verify your email address: " link)
      × (urls.parse link ≡ ok url)
      × (urls.get_param "token" url ≡ some token)
unfolding send_verification_email
send_verification_email-token urls env sender user_email token mail h =
    let (link, made, mailed) = >>=-eq-ok (create_verification_url urls env token) _ h in
    let (base, e1, h1) =
      >>=-eq-ok (required_environment_variable env "EMAIL_VERIFICATION_URL") _ made in
    let (url, e2, h2) = >>=-eq-ok (urls.parse base) _ h1 in
    (
      ap (λ m. m.recipient) (sym (ok_injective mailed)),
      link,
      urls.set_param "token" token url,
      ap (λ m. m.text) (sym (ok_injective mailed)),
      ap urls.parse (sym (ok_injective h2))
          ∙ urls.parse-to_string (urls.set_param "token" token url),
      urls.get_param-set_param "token" token url,
    )
