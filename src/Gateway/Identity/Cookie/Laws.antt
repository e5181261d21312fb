-- ===== src/Gateway/Identity/Cookie/Laws.antt =====
-- What `getCookieValue` finds in a cookie header.
use polyglot_ticketing_v.Base.{
  ℕ, String, ◌≡◌, ◌∙◌, subst, Option-cases, none, some, List, [], ◌∷◌, str_eq, if◌then◌else◌, All,
  arith, Bool-cases, inl, inr,
}
use polyglot_ticketing_v.Base.Text.{split, join, trim, MissesChar}
use polyglot_ticketing_v.Base.Text.Laws.{
  MissesChar-append, split-MissesChar, split_keeps-MissesChar, trim-MissesChar,
}
use polyglot_ticketing_v.Gateway.Identity.Headers.{HeaderValue}
use polyglot_ticketing_v.Gateway.Identity.Cookie.{
  match_parts, match_cookie, find_cookie, header_text, get_cookie_value, or_else,
}

some-injective : {v w : String} → some v ≡ some w → v ≡ w
some-injective e = cc

none-ne-some : {v : String} → none ≡ some v → ⊥
none-ne-some e = cc

join-MissesChar :
    (sep : ℕ) (glue : String) (parts : List String)
    → MissesChar sep glue
    → All (MissesChar sep) parts
    → MissesChar sep (join glue parts)
unfolding join
join-MissesChar sep glue [] g h = tt
join-MissesChar sep glue (part ∷ []) g (h, hs) = h
join-MissesChar sep glue (part ∷ next ∷ parts) g (h, hs) =
    MissesChar-append sep part _ h
      (MissesChar-append sep glue _ g (join-MissesChar sep glue (next ∷ parts) g hs))

match_parts-MissesChar :
    (name : String) (parts : List String) {v : String}
    → All (MissesChar b';') parts
    → match_parts name parts ≡ some v
    → MissesChar b';' v
match_parts-MissesChar name [] h e = cc
match_parts-MissesChar name (n ∷ parts) {v} (h, hs) e = elim (Bool-cases (str_eq n name)) [
  | inl same ↦
      subst (MissesChar b';') (some-injective (rw (same, if◌then◌else◌) at e))
        (join-MissesChar b';' "=" parts (ground arith, tt) hs)
  | inr other ↦ absurd (none-ne-some (rw (other, if◌then◌else◌) at e))
]

match_cookie-MissesChar :
    (name cookie : String) {v : String}
    → MissesChar b';' cookie
    → match_cookie name cookie ≡ some v
    → MissesChar b';' v
unfolding match_cookie
match_cookie-MissesChar name cookie h e =
    match_parts-MissesChar name (split b'=' (trim cookie))
      (split_keeps-MissesChar b'=' b';' (trim cookie) (trim-MissesChar b';' cookie h)) e

find_cookie-MissesChar :
    (name : String) (cookies : List String) {v : String}
    → All (MissesChar b';') cookies
    → find_cookie name cookies ≡ some v
    → MissesChar b';' v
unfolding find_cookie
find_cookie-MissesChar name [] h e = absurd (none-ne-some e)
find_cookie-MissesChar name (cookie ∷ cookies) h e =
    elim (Option-cases (match_cookie name cookie)) [
      | inl missed ↦ find_cookie-MissesChar name cookies h.1 (rw (missed, or_else) at e)
      | inr (w, found) ↦
          match_cookie-MissesChar name cookie h.0 (found ∙ (rw (found, or_else) at e))
    ]

-- The value that is found for a cookie holds no semicolon: no part of another cookie of the
-- request comes along.
pub get_cookie_value-MissesChar :
    (header : HeaderValue) (name v : String)
    → get_cookie_value header name ≡ some v
    → MissesChar b';' v
unfolding get_cookie_value
get_cookie_value-MissesChar header name v e = elim (Bool-cases (str_eq (header_text header) "")) [
  | inl empty ↦ absurd (none-ne-some (rw (empty, if◌then◌else◌) at e))
  | inr full ↦
      find_cookie-MissesChar name (split b';' (header_text header))
        (split-MissesChar b';' (header_text header)) (rw (full, if◌then◌else◌) at e)
]
