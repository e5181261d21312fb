-- ===== src/Tests/Samples.antt =====
-- Concrete instances of the interfaces, and the data of the examples.
pub mod Services
pub mod Validator
pub mod MsgHeaders
pub mod JetStream
pub mod Queue
pub mod Events
pub mod Node
pub mod TicketTexts
pub mod TicketServer
use native.Mathlib.Nat.{mul-div_cancel}
use polyglot_ticketing_v.Base.{
  ℕ, zero, suc, ℤ, pos, negsuc, ◌+◌, ◌*◌, ◌/◌, ◌≤◌, ◌≡◌, ◌≢◌, refl, sym, ap, ◌∙◌, String, Bool,
  true, false, ◌&&◌, ◌||◌, leb, Option, none, some, List, [], ◌∷◌, Result, ok, err, str_eq,
  if◌then◌else◌, arith,
}
use polyglot_ticketing_v.Base.Text.{every, trim}
use polyglot_ticketing_v.Value.{Value, obj, end, entry, str, num}
use polyglot_ticketing_v.Value.Json.{Json}
use polyglot_ticketing_v.Contracts.OrderStatus
use polyglot_ticketing_v.Platform.Metadata.{MetadataApi, MetadataValue, text}
use polyglot_ticketing_v.Platform.WebHeaders.{HeadersApi}
use polyglot_ticketing_v.Platform.Dates.{DateApi, Timestamp}
use polyglot_ticketing_v.Gateway.Identity.AuthService.{IdentityGrpcService}
use polyglot_ticketing_v.Identity.Service.{CurrentUserResponse, SignInResponse, SignUpResponse}

-- Metadata as a function from the keys.
abbrev pub metadata : MetadataApi
metadata = record {
  Metadata = String → List MetadataValue;
  empty = λ k. [];
  is_legal = every (λ c. leb 32 c && leb c 126);
  set = λ m k v j. if str_eq k j then text v ∷ [] else m j;
  get = λ m k. m k;
  get-empty = λ k. refl;
  get-set = λ m k v j. refl;
}

-- Web headers as a function from the names, with the `set-cookie` headers.
abbrev pub web_headers : HeadersApi
web_headers = record {
  Headers = (String → Option String) × Option (List String);
  empty = (λ k. none, some []);
  normalize = trim;
  set = λ h k v. (λ j. if str_eq k j then some (trim v) else h.0 j, h.1);
  get = λ h k. h.0 k;
  get_set_cookie = λ h. h.1;
  get-empty = λ k. refl;
  get-set = λ h k v j. refl;
}

-- Doubles as whole numbers from 0 on, rounded down.
abbrev whole_part : ℤ → ℕ
whole_part (pos n) = n
whole_part (negsuc n) = 0

abbrev quotient : ℕ → ℕ → ℕ
quotient m zero = 0
quotient m (suc n) = m / suc n

pub quotient_whole : (m n : ℕ) → n ≢ 0 → quotient (m * n) n ≡ m
quotient_whole m zero h = absurd (h refl)
quotient_whole m (suc n) h = mul-div_cancel m (omega arith)

abbrev pub dates : DateApi
dates = record {
  Double = ℕ;
  number = whole_part;
  times = λ m n. m * n;
  plus = λ m n. m + n;
  over = quotient;
  time_of = λ n. pos n;
  times_whole = λ m n h. refl;
  plus_whole = λ m n h. refl;
  over_whole = λ m n nonzero h. quotient_whole m n nonzero;
  time_of_whole = λ t h. refl;
  to_iso_string = λ t. some "1970-01-01T00:00:00.000Z";
}
