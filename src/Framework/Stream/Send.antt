-- ===== src/Framework/Stream/Send.antt =====
-- plugins/test/framework.cc: the `Send…` helpers of `TestHttpContext`. The virtual calls into the
-- plugin are the parameter `on`.
use service_extensions_sampl.Base.{Text, ℕ, Bool, false, none, some, [], if◌then◌else◌, length}
use service_extensions_sampl.Wasm.{
  request_headers, response_headers, FilterHeadersStatus, FilterDataStatus,
}
use service_extensions_sampl.Framework.Headers.{Headers}
use service_extensions_sampl.Framework.Stream.{
  request_headers_callback, request_body_callback, response_headers_callback,
  response_body_callback, Result, empty_result, Stream,
}

abbrev pub OnHeaders : Type 0
OnHeaders = ℕ → Bool → Stream → FilterHeadersStatus × Stream

abbrev pub OnBody : Type 0
OnBody = ℕ → Bool → Stream → FilterDataStatus × Stream

-- What `std::move(result_)` leaves behind.
abbrev pub moved_from : Result → Result
moved_from r = record r { headers = []; body = []; details = [] }

-- `phase_logs_.clear(); result_ = Result{};`
abbrev pub reset : Stream → Stream
reset s = record s { phase_logs = []; result = empty_result }

-- The end of a headers phase: the status is stored, the phase is over, the result is moved out.
finish_headers : FilterHeadersStatus × Stream → Result × Stream
finish_headers (status, s) =
    let r = record (s.result) { header_status = status } in
    (r, record s { phase = none; result = moved_from r })

-- The end of a body phase: the status and the text of the buffer are stored in the result.
finish_body : FilterDataStatus × Stream → Result × Stream
finish_body (status, s) =
    let r = record (s.result) { body_status = status; body = s.body_buffer } in
    (r, record s { body_buffer = []; result = moved_from r })

unfoldable pub send_request_headers : OnHeaders → Headers → Stream → Result × Stream
unfolding finish_headers
send_request_headers on headers s = finish_headers (
    on (length headers) false (record s {
      phase_logs = [];
      result = record empty_result { headers = headers };
      phase = some request_headers;
      current_callback = request_headers_callback;
    }))

unfoldable pub send_request_body : OnBody → Text → Bool → Stream → Result × Stream
unfolding finish_body
send_request_body on body end_of_stream s =
    if s.sent_local_response
    then (empty_result, reset s)
    else finish_body (
        on (length body) end_of_stream
          (record (reset s) { body_buffer = body; current_callback = request_body_callback }))

unfoldable pub send_response_headers : OnHeaders → Headers → Stream → Result × Stream
unfolding finish_headers
send_response_headers on headers s =
    if s.sent_local_response
    then (empty_result, reset s)
    else finish_headers (
        on (length headers) false (record s {
          phase_logs = [];
          result = record empty_result { headers = headers };
          phase = some response_headers;
          current_callback = response_headers_callback;
        }))

unfoldable pub send_response_body : OnBody → Text → Bool → Stream → Result × Stream
unfolding finish_body
send_response_body on body end_of_stream s =
    if s.sent_local_response
    then (empty_result, reset s)
    else finish_body (
        on (length body) end_of_stream
          (record (reset s) { body_buffer = body; current_callback = response_body_callback }))
