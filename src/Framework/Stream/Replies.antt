-- ===== src/Framework/Stream/Replies.antt =====
-- plugins/test/framework.cc: what the `Send…` helpers return, and how a local response ends a
-- stream.
use service_extensions_sampl.Base.{
  Text, ℕ, ◌≡◌, refl, Bool, true, false, none, some, List, [], ◌∷◌, map, length,
}
use service_extensions_sampl.Wasm.{FilterHeadersStatus, FilterDataStatus, request_headers}
use service_extensions_sampl.Framework.Headers.{Headers, IsWeakOrder, IsSorted}
use service_extensions_sampl.Framework.Stream.{
  Stream, Result, empty_result, send_local_response, request_headers_callback,
}
use service_extensions_sampl.Framework.Stream.Send.{
  OnHeaders, OnBody, send_request_headers, send_request_body, send_response_headers,
  send_response_body, reset,
}
use service_extensions_sampl.Framework.Stream.Calls.{Calls, Calls-IsKept}

-- A callback that reaches the context through Proxy-Wasm calls only.
abbrev pub IsHosted : (Text → Text → Bool) → OnHeaders → Type 0
IsHosted less on = (n : ℕ) (e : Bool) (s : Stream) → Calls less s (on n e s).1

-- A callback that sends one local response and returns a status.
abbrev pub replying :
    {A : Type 0}
    → (Text → Text → Bool)
    → A
    → ℕ
    → Text
    → List (Text × Text)
    → ℕ
    → Text
    → ℕ
    → Bool
    → Stream
    → A × Stream
replying less a code text pairs grpc details n e s =
    (a, (send_local_response less code text pairs grpc details s).1)

-- A phase after the request headers, with the callback of the plugin for it.
pub data Later : Type 0 where
  later_request_body later_response_body : OnBody → Text → Bool → Later
  later_response_headers : OnHeaders → Headers → Later

abbrev pub run_phase : Later → Stream → Result × Stream
run_phase (later_request_body on body e) s = send_request_body on body e s
run_phase (later_response_body on body e) s = send_response_body on body e s
run_phase (later_response_headers on headers) s = send_response_headers on headers s

-- Phases in order, with their results.
abbrev pub run_phases : List Later → Stream → List Result × Stream
run_phases [] s = ([], s)
run_phases (p ∷ ps) s =
    let (r, s') = run_phase p s in let (rs, s'') = run_phases ps s' in (r ∷ rs, s'')

-- The stream after phases that do nothing: only its result and the log of the phase are cleared.
abbrev pub untouched : List Later → Stream → Stream
untouched [] s = s
untouched (p ∷ ps) s = reset s

-- The stream as the request headers callback finds it.
abbrev pub begun : Headers → Stream → Stream
begun headers s = record s {
  phase_logs = [];
  result = record empty_result { headers = headers };
  phase = some request_headers;
  current_callback = request_headers_callback;
}

phase_silent :
    (p : Later) (s : Stream)
    → s.sent_local_response ≡ true
    → run_phase p s ≡ (empty_result, reset s)
unfolding send_request_body send_response_headers send_response_body
phase_silent (later_request_body on body e) s h = rw h refl
phase_silent (later_response_body on body e) s h = rw h refl
phase_silent (later_response_headers on headers) s h = rw h refl

untouched-reset : (ps : List Later) (s : Stream) → untouched ps (reset s) ≡ reset s
untouched-reset [] s = refl
untouched-reset (p ∷ ps) s = refl

phases_silent :
    (ps : List Later) (s : Stream)
    → s.sent_local_response ≡ true
    → run_phases ps s ≡ (map (λ p. empty_result) ps, untouched ps s)
phases_silent [] s h = refl
phases_silent (p ∷ ps) s h =
    rw (phase_silent p s h, phases_silent ps (reset s) h, untouched-reset ps s) refl

reply-sent :
    (less : Text → Text → Bool) (code : ℕ) (text : Text) (pairs : List (Text × Text)) (grpc : ℕ)
    (details : Text) (u : Stream)
    → u.current_callback ≡ request_headers_callback
    → (send_local_response less code text pairs grpc details u).1.sent_local_response ≡ true
unfolding send_local_response
reply-sent less code text pairs grpc details u e = rw e refl

module _ (less : Text → Text → Bool) (o : IsWeakOrder less) where
  -- If a plugin sends a local response anywhere among its calls in the request headers callback, the rest
  -- of the stream never reaches it: any later phases, in any order and with any callbacks, return the
  -- empty result, and the stream stays as the callback left it but for the cleared result and log.
  pub replied_stream_is_silent :
      (on : OnHeaders) (headers : Headers) (s u : Stream) (code : ℕ) (text : Text)
      (pairs : List (Text × Text)) (grpc : ℕ) (details : Text) (ps : List Later)
      → Calls less (begun headers s) u
      → Calls less
          (send_local_response less code text pairs grpc details u).1
          (on (length headers) false (begun headers s)).1
      → let s₁ = (send_request_headers on headers s).1 in
        run_phases ps s₁ ≡ (map (λ p. empty_result) ps, untouched ps s₁)
  unfolding send_request_headers
  replied_stream_is_silent on headers s u code text pairs grpc details ps first rest =
      let at : u.current_callback ≡ request_headers_callback =
        (Calls-IsKept less o (begun headers s) u first).callback in
      phases_silent ps _
        ((Calls-IsKept less o _ _ rest).sent (reply-sent less code text pairs grpc details u at))

  -- Whatever calls the plugin makes in a request headers callback: the headers that come back are
  -- in key order, an HTTP code comes back only with a local response, and the phase is over.
  pub send_request_headers_result :
      (on : OnHeaders) (headers : Headers) (s : Stream)
      → IsHosted less on
      → IsSorted less headers
      → let (r, u) = send_request_headers on headers s in
        IsSorted less r.headers
        × (u.sent_local_response ≡ false → r.http_code ≡ 0)
        × (u.phase ≡ none)
        × (s.sent_local_response ≡ true → u.sent_local_response ≡ true)
  unfolding send_request_headers
  send_request_headers_result on headers s hosted sorted =
      let start : Stream = record s {
        phase_logs = [];
        result = record empty_result { headers = headers };
        phase = some request_headers;
        current_callback = request_headers_callback;
      } in
      let kept = Calls-IsKept less o start _ (hosted (length headers) false start) in
      (kept.sorted sorted, kept.code, refl, kept.sent)

-- The text of a local response comes back from a request headers callback. From a request body
-- callback its code and headers come back, but the text is overwritten by the body chunk.
pub reply_text :
    (less : Text → Text → Bool) (code : ℕ) (text : Text) (pairs : List (Text × Text)) (grpc : ℕ)
    (details : Text) (hs : FilterHeadersStatus) (ds : FilterDataStatus) (headers : Headers)
    (chunk : Text) (e : Bool) (s : Stream)
    → s.sent_local_response ≡ false
    → let r = (send_request_headers (replying less hs code text pairs grpc details) headers s).0 in
      let b = (send_request_body (replying less ds code text pairs grpc details) chunk e s).0 in
      (r.body ≡ text)
      × (r.http_code ≡ code)
      × (b.body ≡ chunk)
      × (b.http_code ≡ code)
      × (b.headers ≡ r.headers)
unfolding send_request_headers send_request_body send_local_response
reply_text less code text pairs grpc details hs ds headers chunk e s h =
    (refl, refl, rw h, rw h, rw h)
