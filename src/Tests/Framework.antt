-- ===== src/Tests/Framework.antt =====
-- The theorems about plugins/test at inputs that meet their hypotheses.
use service_extensions_sampl.Base.{
  ℕ, ◌≡◌, refl, Bool, true, false, none, some, List, [], ◌∷◌, arith, text_lt, codes,
}
use service_extensions_sampl.Wasm.{
  request_headers, continue, continue_data, stop_iteration, ok, value,
}
use service_extensions_sampl.Framework.Headers.{Headers, lookup}
use service_extensions_sampl.Framework.Buffer.{copy_to, copy_from}
use service_extensions_sampl.Framework.Buffer.Laws.{copy_from_parts, copy_to_in_range}
use service_extensions_sampl.Framework.Stream.{
  Stream, empty_result, no_callback, request_headers_callback, get_header_map_value,
  add_header_map_value, send_local_response,
}
use service_extensions_sampl.Framework.Stream.Send.{
  OnHeaders, reset, send_request_headers, send_request_body,
}
use service_extensions_sampl.Framework.Stream.Access.{get-change}
use service_extensions_sampl.Framework.Stream.Calls.{
  Calls, done, and_then, add, reply, Calls-IsKept, IsKept,
}
use service_extensions_sampl.Framework.Stream.Replies.{
  replying, Later, later_request_body, later_response_headers, run_phases, begun,
  replied_stream_is_silent, send_request_headers_result, reply_text,
}
use service_extensions_sampl.Framework.AdditionalStream.{
  AdditionalStream, Action, create, advance, advance_times, Status,
}
use service_extensions_sampl.Framework.AdditionalStream.Cycle.{
  advance_times-life, advance_total, life, perform_all,
}
use service_extensions_sampl.Tests.Order.{caseless, caseless-IsWeakOrder, lower}

abbrev idle : Stream
idle = record {
  phase = none;
  result = empty_result;
  sent_local_response = false;
  body_buffer = [];
  current_callback = no_callback;
  phase_logs = [];
  logging_bytes = 0;
  logging_entries = 0;
  plugin_config = [];
  properties = [];
  torn_down = false;
}

abbrev one_header : Headers
one_header = (codes "x-a", codes "1") ∷ []

-- In the request headers callback, with one header.
abbrev asking : Stream
asking = record idle {
  phase = some request_headers;
  current_callback = request_headers_callback;
  result = record empty_result { headers = one_header };
}

get-change_example :
    get_header_map_value caseless request_headers
      (codes "X-A")
      (add_header_map_value caseless request_headers (codes "x-A") (codes "2") asking).1
    ≡ value (codes "1, 2")
unfolding caseless lower text_lt codes get_header_map_value lookup
get-change_example =
    (get-change caseless caseless-IsWeakOrder request_headers (codes "X-A") (codes "x-A")
      (codes "2") asking refl (tt, tt)).1

-- Two calls: a header is added, then the request is refused.
abbrev two_calls :
    (n : ℕ) (e : Bool) (s : Stream)
    → Calls caseless s
        (send_local_response caseless 403 [] one_header 0 []
          (add_header_map_value caseless request_headers (codes "b") (codes "c") s).1).1
two_calls n e s =
    and_then (and_then done (add request_headers (codes "b") (codes "c")))
      (reply 403 [] one_header 0 [])

abbrev refusing : OnHeaders
refusing n e s = (
  stop_iteration,
  (send_local_response caseless 403 [] one_header 0 []
      (add_header_map_value caseless request_headers (codes "b") (codes "c") s).1).1,
)

Calls-IsKept_example : IsKept caseless asking (refusing 1 false asking).1
Calls-IsKept_example =
    Calls-IsKept caseless caseless-IsWeakOrder asking (refusing 1 false asking).1
      (two_calls 1 false asking)

send_request_headers_result_example : (send_request_headers refusing one_header idle).1.phase ≡ none
send_request_headers_result_example =
    (send_request_headers_result caseless caseless-IsWeakOrder refusing one_header idle two_calls
      (tt, tt)).2

abbrev refused_reply : OnHeaders
refused_reply = replying caseless stop_iteration 403 (codes "no") one_header 0 []

abbrev later : List Later
later =
    later_request_body (λ n e s. (continue_data, record s { body_buffer = codes "changed" }))
      (codes "body") true
    ∷ later_response_headers (λ n e s. (continue, s)) one_header
    ∷ []

replied_stream_is_silent_example :
    let s = (send_request_headers refused_reply one_header idle).1 in
    run_phases later s ≡ (empty_result ∷ empty_result ∷ [], reset s)
replied_stream_is_silent_example =
    replied_stream_is_silent caseless caseless-IsWeakOrder refused_reply one_header idle
      (begun one_header idle) 403 (codes "no") one_header 0 [] later done done

reply_text_example :
    (send_request_body
      (replying caseless continue_data 403 (codes "no") [] 0 [])
      (codes "chunk")
      true
      idle).0.body
    ≡ codes "chunk"
reply_text_example =
    (reply_text caseless 403 (codes "no") [] 0 [] continue continue_data [] (codes "chunk") true
      idle refl).2

copy_from_parts_example : copy_from (1 ∷ 2 ∷ []) 3 0 (9 ∷ []) ≡ (ok, 1 ∷ 2 ∷ 9 ∷ [])
copy_from_parts_example =
    (copy_from_parts (7 ∷ []) (1 ∷ 2 ∷ []) (8 ∷ []) (9 ∷ []) 3 0 (omega arith)).0

copy_to_in_range_example : copy_to (1 ∷ 2 ∷ 3 ∷ []) 1 2 ≡ value (2 ∷ 3 ∷ [])
copy_to_in_range_example = (copy_to_in_range (1 ∷ 2 ∷ 3 ∷ []) 1 2 (omega arith) (omega arith)).0

abbrev full_stream : AdditionalStream
full_stream = record {
  request_headers = some one_header;
  response_headers = none;
  request_body_chunks = some ((1 ∷ []) ∷ (2 ∷ []) ∷ []);
  response_body_chunks = none;
  remaining_request = [];
  remaining_response = [];
  next_action = create;
}

abbrev note : Action → List Action → List Action
note e l = e ∷ l

advance_times-life_example :
    advance_times note (λ l. false) 5 full_stream []
    ≡ some (full_stream, perform_all note (λ l. false) (life full_stream) [])
advance_times-life_example = advance_times-life note (λ l. false) full_stream [] (refl, refl, refl)

advance_total_example :
    (out : Status × AdditionalStream × List Action) × (advance note (λ l. false) full_stream []
      ≡ some out)
advance_total_example = advance_total note (λ l. false) full_stream []
