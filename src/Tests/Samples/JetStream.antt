-- ===== src/Tests/Samples/JetStream.antt =====
-- A JetStream server that holds the subjects of its streams, and that no other client uses.
use polyglot_ticketing_v.Base.{
  ℕ, ◌*◌, String, ◌≡◌, sym, ap, ◌∙◌, Option, none, some, List, Result, ok, err, str_eq, eq_iff,
  if◌then◌else◌, arith,
}
use polyglot_ticketing_v.Value.{str}
use polyglot_ticketing_v.Platform.JetStream.{
  StreamConfig, CallError, stream_not_found, failed, JetStreamApi,
}

abbrev pub Streams : Type 0
Streams = String → Option (List String)

abbrev set : String → List String → Streams → Streams
set name subjects s = λ k. if str_eq k name then some subjects else s k

pub set_lem :
    (name : String) (subjects : List String) (s : Streams)
    → set name subjects s name ≡ some subjects
set_lem name subjects s = ground (arith, eq_iff name name)

abbrev config_of : String → List String → StreamConfig
config_of name subjects = record {
  name = name;
  subjects = subjects;
  retention = "limits";
  storage = "file";
  duplicate_window = none;
  max_age = none;
}

abbrev info_of : String → Option (List String) → Result CallError StreamConfig
info_of name none = err stream_not_found
info_of name (some subjects) = ok (config_of name subjects)

abbrev info : String → Streams → Result CallError StreamConfig × Streams
info name s = (info_of name (s name), s)

-- The name is in use.
abbrev add_to :
    Option (List String) → StreamConfig → Streams → Result CallError (Unit {0}) × Streams
add_to none c s = (ok tt, set c.name c.subjects s)
add_to (some old) c s = (err (failed (str "name in use")), s)

abbrev add : StreamConfig → Streams → Result CallError (Unit {0}) × Streams
add c s = add_to (s c.name) c s

abbrev update : String → StreamConfig → Streams → Result CallError (Unit {0}) × Streams
update name c s = (ok tt, set name c.subjects s)

abbrev accept : Streams → Result CallError (Unit {0}) × Streams
accept s = (ok tt, s)

abbrev subjects_in : Result CallError StreamConfig → Option (List String)
subjects_in (ok c) = some c.subjects
subjects_in (err e) = none

pub info_of-ok :
    (name : String) (o : Option (List String)) (c : StreamConfig)
    → info_of name o ≡ ok c
    → o ≡ some c.subjects
info_of-ok name none c h = absurd (ground arith)
info_of-ok name (some subjects) c h = ap subjects_in h

pub add_to-ok :
    (o : Option (List String)) (c : StreamConfig) (s t : Streams)
    → add_to o c s ≡ (ok tt, t)
    → t c.name ≡ some c.subjects
add_to-ok none c s t h = ap (λ r. r.1 c.name) (sym h) ∙ set_lem c.name c.subjects s
add_to-ok (some old) c s t h = absurd (ground (arith, ap (λ r. r.0) h))

abbrev pub jet_stream : JetStreamApi
jet_stream = record {
  Server = Streams;
  Connection = ℕ;
  subjects_of = λ s name. s name;
  info = info;
  add = add;
  update = update;
  consumer_info = λ stream name. accept;
  add_consumer = λ stream c. accept;
  get_consumer = λ stream name. accept;
  nanos = λ n. n * 1_000_000;
  info-ok =
      λ n s t c h. ap (λ u. u n) (sym (ap (λ r. r.1) h)) ∙ info_of-ok n (s n) c (ap (λ r. r.0) h);
  add-ok = λ c s t h. add_to-ok (s c.name) c s t h;
  update-ok = λ n c s t h. ap (λ r. r.1 n) (sym h) ∙ set_lem n c.subjects s;
}
