-- ===== src/Identity/Auth.antt =====
-- The set-up of Better Auth and its mails: apps/identity/src/auth/auth.factory.ts and
-- email.sender.ts. Better Auth, the database and the mail transport are third-party: the model has
-- the options that they are given.
pub mod Configuration
use polyglot_ticketing_v.Base.{
  ℕ, ℤ, String, Bool, true, false, Option, none, some, List, [], ◌∷◌, Result, ok, err, ◌>>=◌,
  default_to, str_eq, if◌then◌else◌,
}
use polyglot_ticketing_v.Base.Text.{append}
use polyglot_ticketing_v.Value.{Value, obj, str, entry, end}
use polyglot_ticketing_v.Platform.Numbers.{JsNumber, NumberApi}
use polyglot_ticketing_v.Platform.Urls.{UrlApi}

-- `process.env`
abbrev pub Environment : Type 0
Environment = String → Option String

abbrev pub not_configured : String → Value
not_configured name = obj (entry "message" (str (append name " must be configured.")) end)

-- Both files have this function.
unfoldable pub required_environment_variable : Environment → String → Result Value String
required_environment_variable env name = elim (env name) [
  | none ↦ err (not_configured name)
  | some value ↦ if str_eq value "" then err (not_configured name) else ok value
]

-- A mail for `transporter.sendMail`.
pub record Mail : Type 0 where
  pub sender : String
  pub subject : String
  pub text : String
  pub recipient : String

-- The options of `createTransport`, and the sender of the mails.
pub record EmailSender : Type 0 where
  pub host : String
  pub port : JsNumber
  pub secure : Bool
  pub sender : String

unfoldable pub create_email_sender : NumberApi → Environment → Result Value EmailSender
unfolding required_environment_variable
create_email_sender numbers env = do
  host ← required_environment_variable env "SMTP_HOST"
  port ← required_environment_variable env "SMTP_PORT"
  from ← required_environment_variable env "SMTP_FROM"
  ok (record { host = host; port = numbers.number port; secure = false; sender = from })

-- `sendVerificationEmail` of the sender: the mail that it hands to the transport.
unfoldable pub verification_mail : EmailSender → String → String → Mail
verification_mail sender recipient verification_url = record {
  sender = sender.sender;
  subject = "Verify your Polyglot Ticketing email address";
  text = append "Verify your email address: " verification_url;
  recipient = recipient;
}

unfoldable pub create_verification_url : UrlApi → Environment → String → Result Value String
unfolding required_environment_variable
create_verification_url urls env token = do
  base ← required_environment_variable env "EMAIL_VERIFICATION_URL"
  url ← urls.parse base
  ok (urls.to_string (urls.set_param "token" token url))

-- `sendVerificationEmail` of the options of Better Auth.
unfoldable pub send_verification_email :
    UrlApi → Environment → EmailSender → String → String → Result Value Mail
unfolding create_verification_url verification_mail
send_verification_email urls env sender user_email token = do
  verification_url ← create_verification_url urls env token
  ok (verification_mail sender user_email verification_url)

-- The options of Better Auth.
pub record AuthOptions : Type 0 where
  pub connection_string : String
  pub session_cookie_name : String
  pub base_url : String
  pub auto_sign_in : Bool
  pub enabled : Bool
  pub require_email_verification : Bool
  pub send_on_sign_in : Bool
  pub send_on_sign_up : Bool
  pub secret : String
  pub trusted_origins : List String

unfoldable pub create_identity_auth_context :
    NumberApi → Environment → Result Value (AuthOptions × EmailSender)
unfolding create_email_sender
create_identity_auth_context numbers env = do
  connection_string ← required_environment_variable env "DATABASE_URL"
  email_sender ← create_email_sender numbers env
  base_url ← required_environment_variable env "BETTER_AUTH_URL"
  secret ← required_environment_variable env "BETTER_AUTH_SECRET"
  ok (
    record {
      connection_string = connection_string;
      session_cookie_name = "better-auth.session_token";
      base_url = base_url;
      auto_sign_in = false;
      enabled = true;
      require_email_verification = true;
      send_on_sign_in = false;
      send_on_sign_up = true;
      secret = secret;
      trusted_origins = default_to "http://localhost:3001" (env "TICKETING_USER_APP_ORIGIN") ∷ [];
    },
    email_sender,
  )

-- `getSessionExpiry`, over the rows of its query; a row is its `expiresAt`.
unfoldable pub get_session_expiry : Result Value (List ℤ) → Result Value (Option ℤ)
get_session_expiry (err e) = err e
get_session_expiry (ok []) = ok none
get_session_expiry (ok (expires_at ∷ rows)) = ok (some expires_at)
