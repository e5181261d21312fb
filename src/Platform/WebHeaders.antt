-- ===== src/Platform/WebHeaders.antt =====
-- The web platform's `Headers`, as apps/identity uses it: with lower-case constants for names.
-- `set` stores a value normalised, without white space around it.
use polyglot_ticketing_v.Base.{String, ◌≡◌, Option, none, some, str_eq, if◌then◌else◌, List}

pub record HeadersApi : Type 1 where
  pub Headers : Type 0
  pub empty : Headers
  pub normalize : String → String
  pub set : Headers → String → String → Headers
  pub get : Headers → String → Option String
  -- `getSetCookie`, absent in old runtimes.
  pub get_set_cookie : Headers → Option (List String)
  pub get-empty : (k : String) → get empty k ≡ none
  pub get-set :
      (h : Headers) (k v j : String)
      → get (set h k v) j ≡ (if str_eq k j then some (normalize v) else get h j)
