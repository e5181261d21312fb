-- ===== src/Identity/SessionCookie/Laws.antt =====
-- What `extractSessionCookieValue` finds in the headers that Better Auth sets.
use Prim.Native.String.{[], ◌∷◌}
use polyglot_ticketing_v.Base.{
  String, ◌≡◌, ◌∙◌, ap, some, List, [], ◌∷◌, ◌++◌, find, false, true, if◌then◌else◌, All, Bool,
}
use polyglot_ticketing_v.Base.Text.{append, starts_with, index_of, MissesChar}
use polyglot_ticketing_v.Base.Text.Cutting.{
  slice_from-append, slice_to-append, starts_with-append, index_of-append, index_of-eq-none,
}
use polyglot_ticketing_v.Identity.SessionCookie.{
  session_cookie_value, session_prefix, up_to, value_of,
}

-- `find` passes over what fails the test.
find-append {ℓ} :
    {A : Type ℓ} (p : A → Bool) (before : List A) (a : A) (after : List A)
    → All (λ b. p b ≡ false) before
    → p a ≡ true
    → find p (before ++ a ∷ after) ≡ some a
find-append p [] a after h here = rw (here, if◌then◌else◌)
find-append p (b ∷ before) a after h here =
    (rw (h.0, if◌then◌else◌)) ∙ find-append p before a after h.1 here

-- Up to the first semicolon, which ends the value.
up_to-attributes :
    (v attributes : String)
    → MissesChar b';' v
    → up_to (append v (";" ∷ attributes)) (index_of b';' (append v (";" ∷ attributes))) ≡ v
up_to-attributes v attributes h =
    rw (index_of-append ";" v attributes h, up_to) (slice_to-append v (";" ∷ attributes))

up_to-eq : (v : String) → MissesChar b';' v → up_to v (index_of b';' v) ≡ v
up_to-eq v h = rw (index_of-eq-none b';' v h, up_to)

value_of-prefix :
    (s v : String)
    → up_to s (index_of b';' s) ≡ v
    → value_of (some (append session_prefix s)) ≡ some v
value_of-prefix s v h =
    (ap (λ t. some (up_to t (index_of b';' t))) (slice_from-append session_prefix s)) ∙ ap some h

-- Where the first `better-auth.session_token` cookie stands among the headers with a value and
-- attributes, the value is found, without the attributes and whatever other cookies are set.
pub session_cookie_value-attributes :
    (before after : List String) (v attributes : String)
    → All (λ header. starts_with session_prefix header ≡ false) before
    → MissesChar b';' v
    → session_cookie_value (before ++ append session_prefix (append v (";" ∷ attributes)) ∷ after)
      ≡ some v
unfolding session_cookie_value
session_cookie_value-attributes before after v attributes others h =
    (ap value_of (
      find-append (starts_with session_prefix) before _ after others
        (starts_with-append session_prefix (append v (";" ∷ attributes)))))
    ∙ value_of-prefix (append v (";" ∷ attributes)) v (up_to-attributes v attributes h)
