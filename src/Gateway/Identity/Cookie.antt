-- ===== src/Gateway/Identity/Cookie.antt =====
-- The session cookie of a request, `getCookieValue` of
-- apps/api-gateway/src/identity/metadata/session-request-metadata.ts.
pub mod Laws
pub mod Rendering
use polyglot_ticketing_v.Base.{
  Char, String, ◌≡◌, Option, none, some, List, [], ◌∷◌, str_eq, if◌then◌else◌,
}
use Prim.Native.String
use polyglot_ticketing_v.Base.Text.{split, join, trim, append, MissesChar}
use polyglot_ticketing_v.Gateway.Identity.Headers.{HeaderValue, absent, one, many}

-- `const [name, ...valueParts] = cookie.trim().split('=')`, the test and the value.
abbrev pub match_parts : String → List String → Option String
match_parts cookie_name [] = none
match_parts cookie_name (name ∷ value_parts) =
    if str_eq name cookie_name then some (join "=" value_parts) else none

-- One round of the loop.
unfoldable pub match_cookie : String → String → Option String
unfolding trim split join
match_cookie cookie_name cookie = match_parts cookie_name (split b'=' (trim cookie))

abbrev pub or_else : Option String → Option String → Option String
or_else none other = other
or_else (some v) other = some v

unfoldable pub find_cookie : String → List String → Option String
unfolding match_cookie
find_cookie cookie_name [] = none
find_cookie cookie_name (cookie ∷ cookies) =
    or_else (match_cookie cookie_name cookie) (find_cookie cookie_name cookies)

-- `Array.isArray(cookieHeader) ? cookieHeader.join(';') : cookieHeader`
abbrev pub header_text : HeaderValue → String
header_text absent = ""
header_text (one v) = v
header_text (many vs) = join ";" vs

-- A header that is absent or empty has no cookie.
unfoldable pub get_cookie_value : HeaderValue → String → Option String
unfolding find_cookie
get_cookie_value header cookie_name =
    if str_eq (header_text header) ""
    then none
    else find_cookie cookie_name (split b';' (header_text header))

abbrev pub equals_sign : Char
equals_sign = "="

abbrev pub semicolon : Char
semicolon = ";"

abbrev pub space : Char
space = " "

-- The cookie header that a browser sends for a list of cookies: `name=value` joined by "; ".
abbrev pub pair_text : String × String → String
pair_text (name, v) = append name (String.◌∷◌ equals_sign v)

abbrev pub render : List (String × String) → String
render [] = ""
render (p ∷ []) = pair_text p
render (p ∷ q ∷ ps) =
    append (pair_text p) (String.◌∷◌ semicolon (String.◌∷◌ space (render (q ∷ ps))))

-- A cookie as browsers send it: no "=" in the name, no semicolon, no white space around it.
abbrev pub IsClean : String × String → Type 0
IsClean (name, v) =
    MissesChar b'=' name
    × MissesChar b';' name
    × MissesChar b';' v
    × (trim (pair_text (name, v)) ≡ pair_text (name, v))
