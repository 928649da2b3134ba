-- ===== src/Tests/Host.antt =====
-- A small host for runs of the plugins: the headers of one request, a configuration, a body, and
-- what was answered. The string functions behave on the inputs of the tests as the libraries do.
use service_extensions_sampl.Base.{
  Text, ℕ, ◌+◌, ◌-◌, ◌*◌, true, false, ◌&&◌, Option, none, some, List, [], ◌∷◌, leb, ◌==◌,
  if◌then◌else◌, text_eq,
}
use service_extensions_sampl.Base.Int.{ℤ, pos}
use service_extensions_sampl.Wasm.{
  HeaderMapType, request_headers, BufferType, http_response_body, plugin_configuration, ok,
}
use service_extensions_sampl.Sdk.{Sdk}

pub record Fake : Type 0 where
  pub headers : List (Text × Text)
  pub configuration : Text
  pub body : Text
  pub replies : List ℕ

abbrev pub look_up : Text → List (Text × Text) → Option Text
look_up k [] = none
look_up k ((j, v) ∷ m) = if text_eq k j then some v else look_up k m

abbrev pub asked : HeaderMapType → Text → Fake → Option Text
asked request_headers k s = look_up k s.headers
asked _ k s = none

abbrev pub shown : BufferType → Fake → Option Text
shown plugin_configuration s = some s.configuration
shown http_response_body s = some s.body
shown _ s = none

abbrev pub fake : Sdk Fake
fake = record {
  missing_header = none;
  get_header = asked;
  header_pairs = λ t s. s.headers;
  add_header = λ t k v s. (ok, record s { headers = (k, v) ∷ s.headers });
  replace_header = λ t k v s. (ok, record s { headers = (k, v) ∷ s.headers });
  remove_header = λ t k s. (ok, s);
  set_header_pairs = λ t l s. (ok, record s { headers = l });
  get_buffer_bytes = λ b start len s. shown b s;
  set_buffer = λ b start len text s. (ok, record s { body = text });
  send_local_response = λ code details text headers s. record s { replies = code ∷ s.replies };
  get_property = λ path s. none;
  log = λ level message s. s;
}

abbrev pub request : List (Text × Text) → Text → Fake
request headers configuration = record {
  headers = headers;
  configuration = configuration;
  body = [];
  replies = [];
}

abbrev cons_head : ℕ → List Text → List Text
cons_head c [] = (c ∷ []) ∷ []
cons_head c (t ∷ ts) = (c ∷ t) ∷ ts

abbrev pub split_on : Text → ℕ → List Text
split_on [] d = [] ∷ []
split_on (c ∷ s) d = elim (c == d) [ true ↦ [] ∷ split_on s d | false ↦ cons_head c (split_on s d) ]

abbrev pub split_first : Text → ℕ → List Text
split_first [] d = [] ∷ []
split_first (c ∷ s) d = elim (c == d) [ true ↦ [] ∷ s ∷ [] | false ↦ cons_head c (split_first s d) ]

abbrev digits_from : Text → ℕ → Option ℕ
digits_from [] n = some n
digits_from (c ∷ s) n = elim (leb b'0' c && leb c b'9') [
  | true ↦ digits_from s (n * 10 + (c - b'0'))
  | false ↦ none
]

abbrev pub to_number : Text → Option ℤ
to_number [] = none
to_number (c ∷ s) = elim (digits_from (c ∷ s) 0) [ none ↦ none | some n ↦ some (pos n) ]
