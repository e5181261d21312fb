-- ===== src/Gateway/Identity/Cookie/Rendering.antt =====
-- The cookie parser against the cookie header that a browser sends.
use text.Mathlib.TextLemmas.{append-ne-nil_of_right_ne-nil, cons≢nil}
use polyglot_ticketing_v.Base.{
  String, ◌≡◌, ◌≢◌, refl, ◌∙◌, ap, Option, none, some, List, [], ◌∷◌, str_eq, eq_iff, if◌then◌else◌,
  All, arith, map, lookup, Bool, true, false,
}
use polyglot_ticketing_v.Base.Text.{split, extend, MissesChar}
use polyglot_ticketing_v.Base.Text.Laws.{
  MissesChar-append, join-split, split-append, split_of_MissesChar, trim-space,
}
use polyglot_ticketing_v.Gateway.Identity.Headers.{one}
use polyglot_ticketing_v.Gateway.Identity.Cookie.{
  match_cookie, find_cookie, get_cookie_value, or_else, equals_sign, semicolon, space, pair_text,
  render, IsClean,
}

pair_text-MissesChar : (p : String × String) → IsClean p → MissesChar b';' (pair_text p)
pair_text-MissesChar (n, v) (_, hn, hv, _) = MissesChar-append b';' n _ hn (ground arith, hv)

abbrev spaced : String × String → String
spaced q = String.◌∷◌ space (pair_text q)

split-space : (s : String) → split b';' (String.◌∷◌ space s) ≡ extend space (split b';' s)
unfolding split
split-space s = refl

split-render :
    (p : String × String) (ps : List (String × String))
    → IsClean p
    → All IsClean ps
    → split b';' (render (p ∷ ps)) ≡ pair_text p ∷ map spaced ps
split-render p [] h hs = split_of_MissesChar b';' (pair_text p) (pair_text-MissesChar p h)
split-render p (q ∷ ps) h (hq, hs) =
    split-append semicolon (pair_text p) _ (pair_text-MissesChar p h)
    ∙ ap (λ (parts : List String). pair_text p ∷ parts)
        (rw (split-space (render (q ∷ ps)), split-render q ps hq hs))

match_cookie-pair_text :
    (name : String) (p : String × String)
    → IsClean p
    → match_cookie name (pair_text p) ≡ (if str_eq p.0 name then some p.1 else none)
unfolding match_cookie
match_cookie-pair_text name (n, v) (hn, _, _, trimmed) =
    rw (trimmed, split-append equals_sign n v hn, join-split equals_sign v)

match_cookie-spaced :
    (name : String) (p : String × String)
    → match_cookie name (spaced p) ≡ match_cookie name (pair_text p)
unfolding match_cookie
match_cookie-spaced name p = rw (trim-space space (pair_text p) refl)

find_cookie-cons :
    (name c : String) (cs : List String)
    → find_cookie name (c ∷ cs) ≡ or_else (match_cookie name c) (find_cookie name cs)
unfolding find_cookie
find_cookie-cons name c cs = refl

find_cookie-nil : (name : String) → find_cookie name [] ≡ none
unfolding find_cookie
find_cookie-nil name = refl

or_else-if :
    (b : Bool) (v : String) (o : Option String)
    → or_else (if b then some v else none) o ≡ (if b then some v else o)
or_else-if true v o = refl
or_else-if false v o = refl

find_cookie-spaced :
    (name : String) (ps : List (String × String))
    → All IsClean ps
    → find_cookie name (map spaced ps) ≡ lookup name ps
find_cookie-spaced name [] h = find_cookie-nil name
find_cookie-spaced name (p ∷ ps) (h, hs) =
    rw
      (
        find_cookie-cons name (spaced p) (map spaced ps),
        match_cookie-spaced name p,
        match_cookie-pair_text name p h,
        find_cookie-spaced name ps hs,
      )
      (or_else-if (str_eq p.0 name) p.1 (lookup name ps))

find_cookie-rendered :
    (name : String) (p : String × String) (ps : List (String × String))
    → IsClean p
    → All IsClean ps
    → find_cookie name (pair_text p ∷ map spaced ps) ≡ lookup name (p ∷ ps)
find_cookie-rendered name p ps h hs =
    rw
      (
        find_cookie-cons name (pair_text p) (map spaced ps),
        match_cookie-pair_text name p h,
        find_cookie-spaced name ps hs,
      )
      (or_else-if (str_eq p.0 name) p.1 (lookup name ps))

render-ne-nil : (p : String × String) (ps : List (String × String)) → render (p ∷ ps) ≢ ""
render-ne-nil (n, v) [] = append-ne-nil_of_right_ne-nil n cons≢nil
render-ne-nil p (q ∷ ps) = append-ne-nil_of_right_ne-nil (pair_text p) cons≢nil

str_eq-false : (s t : String) → s ≢ t → str_eq s t ≡ false
str_eq-false s t h = ground (arith, eq_iff s t)

-- On the header that a browser sends for a list of cookies, `getCookieValue` finds the value of
-- the first cookie of that name, and nothing where there is none. The names hold no "=" and no
-- semicolon, the values no semicolon, and no cookie begins or ends with white space.
pub get_cookie_value-render :
    (name : String) (ps : List (String × String))
    → All IsClean ps
    → get_cookie_value (one (render ps)) name ≡ lookup name ps
unfolding get_cookie_value
get_cookie_value-render name [] h = refl
get_cookie_value-render name (p ∷ ps) (h, hs) =
    rw
      (
        str_eq-false (render (p ∷ ps)) "" (render-ne-nil p ps),
        if◌then◌else◌,
        split-render p ps h hs,
      )
      (find_cookie-rendered name p ps h hs)
