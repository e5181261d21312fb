-- ===== src/Tests/Samples/MsgHeaders.antt =====
-- Message headers as a list of keys with their values.
use polyglot_ticketing_v.Base.{
  String, ◌≡◌, refl, List, [], ◌∷◌, ◌++◌, map, str_eq, eq_iff, if◌then◌else◌, arith, Bool-cases,
  inl, inr,
}
use polyglot_ticketing_v.Base.Text.{trim}
use polyglot_ticketing_v.Base.Text.Trimming.{trim-trim}
use polyglot_ticketing_v.Platform.MsgHeaders.{MsgHeadersApi, Entries, values_of}

abbrev pub Raw : Type 0
Raw = List (String × String)

abbrev pub entries : Raw → Entries
entries [] = []
entries ((k, v) ∷ h) = (k, trim v ∷ []) ∷ entries h

abbrev pub append : Raw → String → String → Raw
append h j v = h ++ (j, v) ∷ []

abbrev pub remove : Raw → String → Raw
remove [] j = []
remove ((k, v) ∷ h) j = if str_eq k j then remove h j else (k, v) ∷ remove h j

abbrev pub set : Raw → String → String → Raw
set h j v = (j, v) ∷ remove h j

pub entries-append :
    (h : Raw) (j v k : String)
    → values_of k (entries (append h j v))
      ≡ (if str_eq j k then values_of k (entries h) ++ trim v ∷ [] else values_of k (entries h))
entries-append [] j v k = ground arith
entries-append ((i, u) ∷ h) j v k = elim (Bool-cases (str_eq i k)) [
  | inl here ↦ rw (here, entries-append h j v k) (ground arith)
  | inr other ↦ rw (other, entries-append h j v k) (ground arith)
]

values_of-remove :
    (h : Raw) (j k : String)
    → values_of k (entries (remove h j)) ≡ (if str_eq j k then [] else values_of k (entries h))
values_of-remove [] j k = ground arith
values_of-remove ((i, u) ∷ h) j k =
    ground (arith, values_of-remove h j k, eq_iff i j, eq_iff j k, eq_iff i k)

pub entries-set :
    (h : Raw) (j v k : String)
    → values_of k (entries (set h j v))
      ≡ (if str_eq j k then trim v ∷ [] else values_of k (entries h))
entries-set h j v k = rw (values_of-remove h j k) (ground arith)

pub entries_trimmed :
    (h : Raw) (k : String) → map trim (values_of k (entries h)) ≡ values_of k (entries h)
entries_trimmed [] k = refl
entries_trimmed ((i, u) ∷ h) k = elim (Bool-cases (str_eq i k)) [
  | inl here ↦ rw (here, if◌then◌else◌, trim-trim u, entries_trimmed h k)
  | inr other ↦ rw (other, if◌then◌else◌) (entries_trimmed h k)
]

abbrev pub msg_headers : MsgHeadersApi
msg_headers = record {
  MsgHdrs = Raw;
  empty = [];
  append = append;
  set = set;
  entries = entries;
  entries-empty = λ k. refl;
  entries-append = entries-append;
  entries-set = entries-set;
  entries_trimmed = entries_trimmed;
}
