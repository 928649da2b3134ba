-- ===== src/Lua/Handle.antt =====
-- plugins/samples/lua/envoy_lua_api_registration.cc: what the calls of a script do. The methods of
-- the handle that may yield are `InjectNativeYieldAccessors`; their receiver is a `Handle`, and the
-- iterator of `bodyChunks` has the handle that made it. `E` is the coroutine and the host.
pub mod Laws
use service_extensions_sampl.Base.{true, if◌then◌else◌}
use service_extensions_sampl.Wasm.{BufferType}
use service_extensions_sampl.Lua.Status.{StatusOr}
use service_extensions_sampl.Lua.Script.{
  wait_for_headers, wait_for_body, wait_for_body_chunks, wait_for_trailers, Header, Call, asks_body,
  asks_headers, asks_trailers, asks_chunk, adds, replaces, removes, gets, counts, gets_at, lists,
  measures, reads, writes, logs, prints, Reply, gives_header, gives_buffer, gives_status,
  gives_value, gives_number, gives_pairs, gives_bytes, gives_nothing, Host,
}
use service_extensions_sampl.Lua.State.{Coroutine, yield, headers_of, trailers_of, body_of}
use service_extensions_sampl.Lua.Api.{
  add, remove, replace, get, get_at_index, get_num_values, get_pairs, get_length, get_bytes,
  set_bytes,
}

-- `Handle::GetHeaders`, `GetTrailers` and `GetBody`
unfoldable pub get_headers : Coroutine → Header
get_headers c = record { type = headers_of c.mode; is_guarded = true }

unfoldable pub get_trailers : Coroutine → Header
get_trailers c = record { type = trailers_of c.mode; is_guarded = true }

unfoldable pub get_body : Coroutine → BufferType
get_body c = body_of c.mode

-- The closures `body`, `headers`, `trailers` and the iterator of `bodyChunks`.
unfoldable pub ask_body : Coroutine → Reply × Coroutine
unfolding yield get_body
ask_body c = if c.received_body then (gives_buffer (get_body c), c) else yield wait_for_body 0 c

unfoldable pub ask_headers : Coroutine → Reply × Coroutine
unfolding yield get_headers
ask_headers c =
    if c.received_headers then (gives_header (get_headers c), c) else yield wait_for_headers 0 c

unfoldable pub ask_trailers : Coroutine → Reply × Coroutine
unfolding yield get_trailers
ask_trailers c =
    if c.received_trailers then (gives_header (get_trailers c), c) else yield wait_for_trailers 0 c

unfoldable pub ask_chunk : Coroutine → Reply × Coroutine
unfolding yield
ask_chunk c = yield wait_for_body_chunks 0 c

module _ {S : Type 0} (host : Host S) where
  -- A call on the coroutine, and a call on the host.
  abbrev pub on_coroutine : Reply × Coroutine → S → Reply × (Coroutine × S)
  on_coroutine (r, c) s = (r, (c, s))

  abbrev pub on_host : Coroutine → StatusOr Unit × S → Reply × (Coroutine × S)
  on_host c (r, s) = (gives_status r, (c, s))

  -- The functions that the classes `Header`, `Buffer` and `Handle` are registered with.
  unfoldable pub handle_call : Call → Coroutine × S → Reply × (Coroutine × S)
  unfolding ask_body ask_headers ask_trailers ask_chunk
  handle_call asks_body (c, s) = on_coroutine (ask_body c) s
  handle_call asks_headers (c, s) = on_coroutine (ask_headers c) s
  handle_call asks_trailers (c, s) = on_coroutine (ask_trailers c) s
  handle_call asks_chunk (c, s) = on_coroutine (ask_chunk c) s
  handle_call (adds h k v) (c, s) = on_host c (add host c.headers_passed_on h k v s)
  handle_call (replaces h k v) (c, s) = on_host c (replace host c.headers_passed_on h k v s)
  handle_call (removes h k) (c, s) = on_host c (remove host c.headers_passed_on h k s)
  handle_call (gets h k) (c, s) = (gives_value (get host h k s), (c, s))
  handle_call (counts h k) (c, s) = (gives_number (get_num_values host h k s), (c, s))
  handle_call (gets_at h k i) (c, s) = (gives_value (get_at_index host h k i s), (c, s))
  handle_call (lists h) (c, s) = (gives_pairs (get_pairs host h s), (c, s))
  handle_call (measures b) (c, s) = (gives_number (get_length host b s), (c, s))
  handle_call (reads b i n) (c, s) = (gives_bytes (get_bytes host b i n s), (c, s))
  handle_call (writes b t) (c, s) = on_host c (set_bytes host b t s)
  handle_call (logs level t) (c, s) = (gives_nothing, (c, host.sdk.log level t s))
  handle_call (prints t) (c, s) = (gives_nothing, (c, host.print t s))
