-- ===== src/Platform/Urls.antt =====
-- `URL` of Node, with its search parameters.
use polyglot_ticketing_v.Base.{String, Option, some, Result, ok, ◌≡◌}
use polyglot_ticketing_v.Value.{Value}

pub record UrlApi : Type 1 where
  pub Url : Type 0
  -- `new URL(text)`, which throws on a text that is no URL, and `url.toString()`.
  pub parse : String → Result Value Url
  pub to_string : Url → String
  pub pathname : Url → String
  pub hostname : Url → String
  pub port : Url → String
  pub username : Url → String
  pub password : Url → String
  -- `url.searchParams.set(name, value)` and `get(name)`
  pub set_param : String → String → Url → Url
  pub get_param : String → Url → Option String
  -- The text of a URL is one, with the same parameters.
  pub parse-to_string : (url : Url) → parse (to_string url) ≡ ok url
  pub get_param-set_param :
      (name value : String) (url : Url) → get_param name (set_param name value url) ≡ some value
