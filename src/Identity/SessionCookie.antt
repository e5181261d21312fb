-- ===== src/Identity/SessionCookie.antt =====
-- The session cookie that Better Auth sets: apps/identity/src/identity/session-cookie.ts.
pub mod Laws
use Prim.Native.String.{[], ◌∷◌}
use polyglot_ticketing_v.Base.{
  ℕ, ◌+◌, String, Option, none, some, List, [], ◌∷◌, find, str_eq, if◌then◌else◌,
}
use polyglot_ticketing_v.Base.Text.{append, starts_with, slice_from, slice_to, index_of, count}
use polyglot_ticketing_v.Platform.WebHeaders.{HeadersApi}

abbrev pub session_cookie_name : String
session_cookie_name = "better-auth.session_token"

-- `cookieValue.slice(0, separatorIndex)`, or all of it at -1.
abbrev pub up_to : String → Option ℕ → String
up_to cookie_value none = cookie_value
up_to cookie_value (some separator_index) = slice_to separator_index cookie_value

-- `!sessionCookie` holds for no cookie; one that is found is not empty.
abbrev pub value_of : Option String → Option String
value_of none = none
value_of (some session_cookie) =
    let cookie_value = slice_from (count session_cookie_name + 1) session_cookie in
    some (up_to cookie_value (index_of b';' cookie_value))

abbrev pub session_prefix : String
session_prefix = append session_cookie_name "="

unfoldable pub session_cookie_value : List String → Option String
unfolding starts_with slice_from slice_to index_of
session_cookie_value set_cookie_headers =
    value_of (find (starts_with session_prefix) set_cookie_headers)

-- `headers.get('set-cookie') ? [...] : []`
abbrev pub single_header : Option String → List String
single_header none = []
single_header (some value) = if str_eq value "" then [] else value ∷ []

module _ (api : HeadersApi) where
  open api use {Headers, get, get_set_cookie}

  abbrev pub default_headers : Option (List String) → Option String → List String
  default_headers none value = single_header value
  default_headers (some values) value = values

  unfoldable pub get_set_cookie_headers : Headers → List String
  get_set_cookie_headers headers =
      default_headers (get_set_cookie headers) (get headers "set-cookie")

  unfoldable pub extract_session_cookie_value : Headers → Option String
  unfolding get_set_cookie_headers session_cookie_value
  extract_session_cookie_value headers = session_cookie_value (get_set_cookie_headers headers)
