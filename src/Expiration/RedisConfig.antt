-- ===== src/Expiration/RedisConfig.antt =====
-- apps/expiration/src/expiration/redis.config.ts
pub mod Database
use polyglot_ticketing_v.Base.{
  ℕ, ℤ, pos, negsuc, String, Bool, true, false, not, ◌||◌, Option, none, some, Result, ok, err,
  ◌>>=◌, default_to, str_eq, if◌then◌else◌,
}
use polyglot_ticketing_v.Base.Text.{slice_from}
use polyglot_ticketing_v.Value.{Value, obj, str, entry, end}
use polyglot_ticketing_v.Platform.Numbers.{JsNumber, whole, not_whole, NumberApi}
use polyglot_ticketing_v.Platform.Urls.{UrlApi}

-- `ConnectionOptions`; `maxRetriesPerRequest` is null always.
pub record ConnectionOptions : Type 0 where
  pub host : String
  pub port : JsNumber
  pub username : Option String
  pub password : Option String
  pub db : JsNumber

-- `text || undefined`
abbrev pub or_undefined : String → Option String
or_undefined text = if str_eq text "" then none else some text

-- `!Number.isInteger(database) || database < 0`
abbrev pub is_rejected : JsNumber → Bool
is_rejected (whole (pos n)) = false
is_rejected (whole (negsuc n)) = true
is_rejected not_whole = true

abbrev pub database_error : Value
database_error =
    obj (entry "message" (str "REDIS_URL must contain a non-negative integer database index.") end)

module _ (urls : UrlApi) (numbers : NumberApi) where
  open urls use {Url, parse, pathname, hostname, port as url_port, username, password}
  open numbers use {number}

  abbrev pub database_of : String → JsNumber
  database_of path =
      if str_eq path "" || str_eq path "/" then whole (pos 0) else number (slice_from 1 path)

  abbrev pub options_of : Url → Result Value ConnectionOptions
  options_of url =
      let database = database_of (pathname url) in
      if is_rejected database
      then err database_error
      else ok (record {
        host = hostname url;
        port = number (if str_eq (url_port url) "" then "6379" else url_port url);
        username = or_undefined (username url);
        password = or_undefined (password url);
        db = database;
      })

  -- The argument is `process.env.REDIS_URL`.
  unfoldable pub redis_connection_options : Option String → Result Value ConnectionOptions
  unfolding slice_from
  redis_connection_options redis_url = do
    url ← parse (default_to "redis://localhost:6379" redis_url)
    options_of url
