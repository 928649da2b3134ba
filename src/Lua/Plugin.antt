-- ===== src/Lua/Plugin.antt =====
-- plugins/samples/lua/lua_plugin.cc: the contexts of the plugin. The coroutines of the two directions
-- share the interpreter of the root context, so a `Seat` puts one of them together with the interpreter and
-- the host for the time of an event. The fuel is that of Lua.Coroutine.
pub mod Laws
pub mod Starting
use mathlib.Core.Option
use service_extensions_sampl.Base.{Text, codes, ℕ, Bool, Option, none, some, []}
use service_extensions_sampl.Wasm.{
  FilterHeadersStatus, continue, stop_iteration, FilterDataStatus, continue_data,
  stop_iteration_and_buffer, stop_iteration_and_watermark, stop_iteration_no_buffer,
  FilterTrailersStatus, continue_trailers, stop_iteration_trailers, error,
}
use service_extensions_sampl.Lua.Status.{
  StatusCode, invalid_argument, failed_precondition, out_of_range, unauthenticated,
  permission_denied, not_found, already_exists, resource_exhausted, unimplemented, unavailable,
  deadline_exceeded, internal, Status, StatusOr, fine, failed,
}
use service_extensions_sampl.Lua.Script.{
  ExecutionState, YieldReason, wait_for_body, wait_for_http, responded, Host,
}
use service_extensions_sampl.Lua.State.{Coroutine, mark_headers_passed_on}
use service_extensions_sampl.Lua.Coroutine.{World}
use service_extensions_sampl.Lua.Coroutine.Events.{
  start, handle_headers, handle_body, handle_trailers,
}
use service_extensions_sampl.Lua.Interpreter.{Interpreter}

-- The `switch` on the code of an error; a status that is fine has the code 200.
unfoldable pub http_code : StatusCode → ℕ
http_code invalid_argument = 400
http_code failed_precondition = 400
http_code out_of_range = 400
http_code unauthenticated = 401
http_code permission_denied = 403
http_code not_found = 404
http_code already_exists = 409
http_code resource_exhausted = 429
http_code unimplemented = 501
http_code unavailable = 503
http_code deadline_exceeded = 504
http_code _ = 500

unfoldable pub absl_status_to_http_status_code : StatusOr Unit → ℕ
unfolding http_code
absl_status_to_http_status_code (fine _) = 200
absl_status_to_http_status_code (failed e) = http_code e.code

-- The status that each `switch` on the yield reason returns.
abbrev pub headers_status : YieldReason → FilterHeadersStatus
headers_status wait_for_http = stop_iteration
headers_status wait_for_body = stop_iteration
headers_status responded = stop_iteration
headers_status _ = continue

abbrev pub data_status : YieldReason → FilterDataStatus
data_status wait_for_http = stop_iteration_and_watermark
data_status wait_for_body = stop_iteration_and_buffer
data_status responded = stop_iteration_no_buffer
data_status _ = continue_data

abbrev pub trailers_status : YieldReason → FilterTrailersStatus
trailers_status wait_for_http = stop_iteration_trailers
trailers_status responded = stop_iteration_trailers
trailers_status _ = continue_trailers

-- A coroutine and its thread between two events. `id` is the number of the thread.
pub record Flow : Type 0 where
  pub id : ℕ
  pub self : Coroutine
  pub is_finished : Bool
  pub is_running : Bool

-- The coroutine of an event, if there is one, with the host.
pub data Seat (V S : Type 0) : Type 0 where
  empty : S → Seat V S
  taken : ℕ → World V S → Seat V S

module _ {V S : Type 0} (machine : Interpreter V S) (host : Host S) where
  unfoldable pub handle_event_error : Status → S → S
  unfolding absl_status_to_http_status_code
  handle_event_error e s =
      host.sdk.send_local_response (absl_status_to_http_status_code (failed e))
        (codes "plugin_error") e.message [] s

  abbrev no_coroutine : S → S
  no_coroutine s =
      handle_event_error
        (record { code = internal; message = codes "No coroutine exists to process event" }) s

  abbrev pub passed_on : World V S → World V S
  passed_on w = record w { self = mark_headers_passed_on w.self }

  -- After a failed event.
  abbrev pub answered : Status → World V S → World V S
  answered e w = record w { outside = handle_event_error e w.outside }

  -- The end of each handler: the error, or the `switch`.
  abbrev pub headers_end : ℕ → StatusOr ExecutionState × World V S → FilterHeadersStatus × Seat V S
  headers_end id (failed e, w) = (stop_iteration, taken id (answered e w))
  headers_end id (fine _, w) =
      let status = headers_status w.self.yield_reason in
      (status, elim status [ continue ↦ taken id (passed_on w) | _ ↦ taken id w ])

  abbrev pub data_end : ℕ → StatusOr ExecutionState × World V S → FilterDataStatus × Seat V S
  data_end id (failed e, w) = (stop_iteration_no_buffer, taken id (answered e w))
  data_end id (fine _, w) =
      let status = data_status w.self.yield_reason in
      (status, elim status [ continue_data ↦ taken id (passed_on w) | _ ↦ taken id w ])

  abbrev pub trailers_end :
      ℕ → StatusOr ExecutionState × World V S → FilterTrailersStatus × Seat V S
  trailers_end id (failed e, w) = (stop_iteration_trailers, taken id (answered e w))
  trailers_end id (fine _, w) =
      let status = trailers_status w.self.yield_reason in
      (status, elim status [ continue_trailers ↦ taken id (passed_on w) | _ ↦ taken id w ])

  unfoldable pub handle_headers_event :
      ℕ → ℕ → Bool → Seat V S → Option (FilterHeadersStatus × Seat V S)
  unfolding handle_event_error mark_headers_passed_on
  handle_headers_event fuel num_headers end_of_stream (empty s) =
      some (stop_iteration, empty (no_coroutine s))
  handle_headers_event fuel num_headers end_of_stream (taken id w) =
      Option.map (headers_end id)
        (handle_headers (machine.thread id) host fuel num_headers end_of_stream w)

  unfoldable pub handle_body_event : ℕ → ℕ → Bool → Seat V S → Option (FilterDataStatus × Seat V S)
  unfolding handle_event_error mark_headers_passed_on
  handle_body_event fuel body_buffer_length end_of_stream (empty s) =
      some (stop_iteration_no_buffer, empty (no_coroutine s))
  handle_body_event fuel body_buffer_length end_of_stream (taken id w) =
      Option.map (data_end id)
        (handle_body (machine.thread id) host fuel body_buffer_length end_of_stream w)

  unfoldable pub handle_trailers_event : ℕ → ℕ → Seat V S → Option (FilterTrailersStatus × Seat V S)
  unfolding handle_event_error mark_headers_passed_on
  handle_trailers_event fuel num_trailers (empty s) =
      some (stop_iteration_trailers, empty (no_coroutine s))
  handle_trailers_event fuel num_trailers (taken id w) =
      Option.map (trailers_end id) (handle_trailers (machine.thread id) host fuel num_trailers w)

  -- The body of `onRequestHeaders` and of `onResponseHeaders`, on the coroutine of its direction. A
  -- start that fails is only logged.
  unfoldable pub start_and_handle :
      (Status → Text) → ℕ → ℕ → Bool → Seat V S → Option (FilterHeadersStatus × Seat V S)
  unfolding handle_headers_event
  start_and_handle complaint fuel num_headers end_of_stream (empty s) =
      some (stop_iteration, empty (no_coroutine s))
  start_and_handle complaint fuel num_headers end_of_stream (taken id w) =
      elim (start (machine.thread id) host fuel w) [
        | none ↦ none
        | some (failed e, w') ↦ some (
          stop_iteration,
          taken id (record w' { outside = host.sdk.log error (complaint e) w'.outside }),
        )
        | some (fine _, w') ↦ handle_headers_event fuel num_headers end_of_stream (taken id w')
      ]
