-- ===== src/Lua/State.antt =====
-- plugins/samples/lua/coroutine.h: the fields of a `LuaStreamCoroutine`, and the methods of
-- stream_state_interface.h on them. Its thread and its handle stand in Lua.Coroutine.
use service_extensions_sampl.Base.{ℕ, Bool, true, false}
use service_extensions_sampl.Wasm.{
  HeaderMapType, request_headers, request_trailers, response_headers, response_trailers, BufferType,
  http_request_body, http_response_body,
}
use service_extensions_sampl.Lua.Script.{
  Mode, request_mode, response_mode, ExecutionState, exited, yielded, YieldReason, wait_to_start,
  Reply,
}
use service_extensions_sampl.Lua.Thread.{yield_results}

pub record Coroutine : Type 0 where
  pub mode : Mode
  pub state : ExecutionState
  pub yield_reason : YieldReason
  pub headers_passed_on : Bool
  pub received_headers : Bool
  pub received_body : Bool
  pub has_body_data : Bool
  pub body_chunk_consumed : Bool
  pub received_trailers : Bool
  pub stream_ended : Bool

-- The constructor.
unfoldable pub new_coroutine : Mode → Coroutine
new_coroutine mode = record {
  mode = mode;
  state = yielded;
  yield_reason = wait_to_start;
  headers_passed_on = false;
  received_headers = false;
  received_body = false;
  has_body_data = false;
  body_chunk_consumed = false;
  received_trailers = false;
  stream_ended = false;
}

unfoldable pub mark_headers_passed_on : Coroutine → Coroutine
mark_headers_passed_on c = record c { headers_passed_on = true }

-- `Yield`
unfoldable pub yield : YieldReason → ℕ → Coroutine → Reply × Coroutine
unfolding yield_results
yield reason n c = (yield_results n, record c { state = yielded; yield_reason = reason })

-- The header maps and the buffer of the stream's direction.
abbrev pub headers_of : Mode → HeaderMapType
headers_of request_mode = request_headers
headers_of response_mode = response_headers

abbrev pub trailers_of : Mode → HeaderMapType
trailers_of request_mode = request_trailers
trailers_of response_mode = response_trailers

abbrev pub body_of : Mode → BufferType
body_of request_mode = http_request_body
body_of response_mode = http_response_body

abbrev pub is_exited : ExecutionState → Bool
is_exited exited = true
is_exited yielded = false

abbrev pub is_wait_to_start : YieldReason → Bool
is_wait_to_start wait_to_start = true
is_wait_to_start _ = false
