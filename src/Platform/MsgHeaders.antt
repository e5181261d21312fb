-- ===== src/Platform/MsgHeaders.antt =====
-- `MsgHdrs` of @nats-io, as apps/expiration uses it. A key holds a list of values; `append` and
-- `set` store a value without the white space around it.
use polyglot_ticketing_v.Base.{String, ◌≡◌, List, [], ◌∷◌, ◌++◌, map, str_eq, if◌then◌else◌}
use polyglot_ticketing_v.Base.Text.{trim}

abbrev pub Entries : Type 0
Entries = List (String × List String)

-- The values under a key in a list of entries.
abbrev pub values_of : String → Entries → List String
values_of k [] = []
values_of k ((j, vs) ∷ es) = if str_eq j k then vs ++ values_of k es else values_of k es

abbrev pub first_or_empty : List String → String
first_or_empty [] = ""
first_or_empty (v ∷ vs) = v

pub record MsgHeadersApi : Type 1 where
  pub MsgHdrs : Type 0
  -- `headers()`
  pub empty : MsgHdrs
  pub append : MsgHdrs → String → String → MsgHdrs
  pub set : MsgHdrs → String → String → MsgHdrs
  -- The iteration over the keys with their values.
  pub entries : MsgHdrs → Entries
  pub entries-empty : (k : String) → values_of k (entries empty) ≡ []
  pub entries-append :
      (h : MsgHdrs) (j v k : String)
      → values_of k (entries (append h j v))
        ≡ (if str_eq j k then values_of k (entries h) ++ trim v ∷ [] else values_of k (entries h))
  pub entries-set :
      (h : MsgHdrs) (j v k : String)
      → values_of k (entries (set h j v))
        ≡ (if str_eq j k then trim v ∷ [] else values_of k (entries h))
  -- What is stored is trimmed already.
  pub entries_trimmed :
      (h : MsgHdrs) (k : String) → map trim (values_of k (entries h)) ≡ values_of k (entries h)

module _ (api : MsgHeadersApi) where
  open api use {MsgHdrs, entries}

  -- `headers.get(key)`: the first value, or the empty text.
  abbrev pub get : MsgHdrs → String → String
  get h k = first_or_empty (values_of k (entries h))
