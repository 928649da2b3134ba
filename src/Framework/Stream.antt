-- ===== src/Framework/Stream.antt =====
-- plugins/test/framework.h and framework.cc: `TestHttpContext`, the stream context that a plugin
-- sees through the Proxy-Wasm calls, and the `Send…` helpers with which a test drives it.
-- The virtual calls into the plugin (`onRequestHeaders` and so on) are parameters.
-- A moved-from string or map is empty, as libstdc++ leaves it. The log file, standard output and
-- the frozen clock are not modelled.
pub mod Send
pub mod Access
pub mod Calls
pub mod Replies
use service_extensions_sampl.Base.{
  Text, ℕ, ◌+◌, ◌%◌, ◌^◌, Bool, true, false, Option, none, some, List, [], ◌∷◌, ◌++◌, length,
  text_eq, if◌then◌else◌,
}
use service_extensions_sampl.Wasm.{
  HeaderMapType, BufferType, http_request_body, http_response_body, plugin_configuration,
  other_buffer, WasmResult, ok, not_found, bad_argument, FilterHeadersStatus, continue,
  FilterDataStatus, continue_data, Answer, value, refused, same_map,
}
use service_extensions_sampl.Framework.Headers.{Headers, lookup, assign, insert_or_append, erase}

-- `TestHttpContext::CallbackType`
pub data CallbackType : Type 0 where
  no_callback request_headers_callback request_body_callback : CallbackType
  response_headers_callback response_body_callback : CallbackType

-- `TestHttpContext::Result`
pub record Result : Type 0 where
  pub header_status : FilterHeadersStatus
  pub headers : Headers
  pub body_status : FilterDataStatus
  pub body : Text
  pub http_code : ℕ
  pub grpc_code : ℕ
  pub details : Text

-- `Result{}`: the zero of each status is the one that continues.
abbrev pub empty_result : Result
empty_result = record {
  header_status = continue;
  headers = [];
  body_status = continue_data;
  body = [];
  http_code = 0;
  grpc_code = 0;
  details = [];
}

-- The fields of `TestContext` and `TestHttpContext`. `phase` is `none` for the value -1.
pub record Stream : Type 0 where
  pub phase : Option HeaderMapType
  pub result : Result
  pub sent_local_response : Bool
  pub body_buffer : Text
  pub current_callback : CallbackType
  pub phase_logs : List Text
  pub logging_bytes : ℕ
  pub logging_entries : ℕ
  pub plugin_config : Text
  pub properties : List (Text × Text)
  pub torn_down : Bool

-- The negation of the test `type != phase_`.
abbrev pub in_phase : HeaderMapType → Stream → Bool
in_phase t s = elim s.phase [ none ↦ false | some p ↦ same_map t p ]

abbrev pub set_headers : Headers → Stream → Stream
set_headers h s = record s { result = record (s.result) { headers = h } }

-- `getBuffer`: the text of the buffer that the call hands out, if any.
unfoldable pub get_buffer : BufferType → Stream → Option Text
get_buffer plugin_configuration s = some s.plugin_config
get_buffer http_request_body s = elim s.current_callback [
  | request_body_callback ↦ some s.body_buffer
  | _ ↦ none
]
get_buffer http_response_body s = elim s.current_callback [
  | response_body_callback ↦ some s.body_buffer
  | _ ↦ none
]
get_buffer other_buffer s = none

-- `TestContext::log`. `enabled` is the integration's test of the log level.
unfoldable pub log : Bool → Text → Stream → WasmResult × Stream
log enabled message s = (
  ok,
  record s {
    logging_entries = (s.logging_entries + 1) % 2 ^ 64;
    logging_bytes = (s.logging_bytes + length message) % 2 ^ 64;
    phase_logs = if enabled then s.phase_logs ++ message ∷ [] else s.phase_logs;
  },
)

-- The search of `getProperty`, for the path that it has put together.
unfoldable pub find_property : Text → List (Text × Text) → Answer Text
find_property path [] = refused not_found
find_property path ((p, v) ∷ rest) = if text_eq p path then value v else find_property path rest

-- The callbacks in which `sendLocalResponse` is allowed.
abbrev pub may_reply : CallbackType → Bool
may_reply request_headers_callback = true
may_reply response_headers_callback = true
may_reply request_body_callback = true
may_reply response_body_callback = false
may_reply no_callback = false

-- `getProperty`. `translate` puts the segments of the path together with dots: it is Abseil's
-- `StrJoin(StrSplit(path, '\0', SkipEmpty()), ".")`.
unfoldable pub get_property : (Text → Text) → Text → Stream → Answer Text
unfolding find_property
get_property translate path s = find_property (translate path) s.properties

module _ (less : Text → Text → Bool) where
  unfoldable pub get_header_map_size : HeaderMapType → Stream → Answer ℕ
  get_header_map_size t s =
      if in_phase t s then value (length s.result.headers) else refused bad_argument

  unfoldable pub get_header_map_value : HeaderMapType → Text → Stream → Answer Text
  get_header_map_value t k s =
      if in_phase t s
      then (elim (lookup less k s.result.headers) [ none ↦ refused not_found | some v ↦ value v ])
      else refused bad_argument

  unfoldable pub add_header_map_value : HeaderMapType → Text → Text → Stream → WasmResult × Stream
  add_header_map_value t k v s =
      if in_phase t s
      then (ok, set_headers (insert_or_append less k v s.result.headers) s)
      else (bad_argument, s)

  unfoldable pub replace_header_map_value :
      HeaderMapType → Text → Text → Stream → WasmResult × Stream
  replace_header_map_value t k v s =
      if in_phase t s
      then (ok, set_headers (assign less k v s.result.headers) s)
      else (bad_argument, s)

  unfoldable pub remove_header_map_value : HeaderMapType → Text → Stream → WasmResult × Stream
  remove_header_map_value t k s =
      if in_phase t s
      then (ok, set_headers (erase less k s.result.headers) s)
      else (bad_argument, s)

  unfoldable pub get_header_map_pairs : HeaderMapType → Stream → Answer (List (Text × Text))
  get_header_map_pairs t s = if in_phase t s then value s.result.headers else refused bad_argument

  -- The loop of `setHeaderMapPairs`.
  add_pairs : HeaderMapType → List (Text × Text) → Stream → Stream
  unfolding add_header_map_value
  add_pairs t [] s = s
  add_pairs t ((k, v) ∷ pairs) s = add_pairs t pairs (add_header_map_value t k v s).1

  unfoldable pub set_header_map_pairs :
      HeaderMapType → List (Text × Text) → Stream → WasmResult × Stream
  unfolding add_pairs
  set_header_map_pairs t pairs s =
      if in_phase t s then (ok, add_pairs t pairs (set_headers [] s)) else (bad_argument, s)

  -- The loop over `additional_headers` in `sendLocalResponse`.
  unfoldable pub assign_all : List (Text × Text) → Headers → Headers
  assign_all [] m = m
  assign_all ((k, v) ∷ pairs) m = assign_all pairs (assign less k v m)

  unfoldable pub send_local_response :
      ℕ → Text → List (Text × Text) → ℕ → Text → Stream → WasmResult × Stream
  unfolding assign_all
  send_local_response code text additional_headers grpc_status details s =
      if may_reply s.current_callback
      then (
        ok,
        record s {
          sent_local_response = true;
          result = record (s.result) {
            http_code = code;
            body = text;
            grpc_code = grpc_status;
            details = details;
            headers = assign_all additional_headers [];
          };
        },
      )
      else (bad_argument, s)
