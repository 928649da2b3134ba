-- ===== src/Lua/Plugin/Laws.antt =====
-- plugins/samples/lua/lua_plugin.cc: when headers count as passed on, and what a failed event answers.
use mathlib.Core.Option
use service_extensions_sampl.Base.{
  Text, ℕ, ◌≤◌, ◌≡◌, refl, ap, Bool, true, false, ◌||◌, Option, none, some, [], arith, codes,
}
use service_extensions_sampl.Wasm.{
  FilterHeadersStatus, continue, FilterDataStatus, continue_data, stop_iteration_no_buffer,
  stop_iteration, continue_and_end_stream, stop_all_iteration_and_buffer,
  stop_all_iteration_and_watermark, stop_iteration_and_buffer, stop_iteration_and_watermark,
  FilterTrailersStatus, continue_trailers, stop_iteration_trailers,
}
use service_extensions_sampl.Lua.Status.{StatusCode, StatusOr, fine, failed}
use service_extensions_sampl.Lua.Script.{ExecutionState, Lua, Host, Argument}
use service_extensions_sampl.Lua.State.{mark_headers_passed_on}
use service_extensions_sampl.Lua.Coroutine.{World, offer, resume_script}
use service_extensions_sampl.Lua.Coroutine.Events.{handle_headers, handle_body, handle_trailers}
use service_extensions_sampl.Lua.Coroutine.Laws.{
  Leaves, handle_headers-keeps, handle_body-keeps, handle_trailers-keeps,
}
use service_extensions_sampl.Lua.Coroutine.Frames.{offer-HasFlags, resume_script-HasFlags}
use service_extensions_sampl.Lua.Interpreter.{Interpreter}
use service_extensions_sampl.Lua.Plugin.{
  http_code, Seat, empty, taken, passed_on, headers_status, data_status, trailers_status,
  handle_event_error, absl_status_to_http_status_code, headers_end, data_end, trailers_end,
  handle_headers_event, handle_body_event, handle_trailers_event,
}

http_code_bounds : (c : StatusCode) → (400 ≤ http_code c) × (http_code c ≤ 504)
unfolding http_code
http_code_bounds c = ground arith

-- Whether a status lets the stream go on.
abbrev pub headers_go_on : FilterHeadersStatus → Bool
headers_go_on continue = true
headers_go_on _ = false

abbrev pub data_go_on : FilterDataStatus → Bool
data_go_on continue_data = true
data_go_on _ = false

abbrev pub trailers_go_on : FilterTrailersStatus → Bool
trailers_go_on continue_trailers = true
trailers_go_on stop_iteration_trailers = false

module _ {V S : Type 0} (machine : Interpreter V S) (host : Host S) where
  -- The result of an event, by the result of the coroutine: an error stops the stream and is answered
  -- with a code of 4xx or 5xx and the message, and without an error the host is left as it was.
  abbrev pub Answers :
      {A : Type 0}
      → A
      → ℕ
      → Option (StatusOr ExecutionState × World V S)
      → Option (A × Seat V S)
      → Type 0
  Answers stop id none r = r ≡ none
  Answers stop id (some (failed e, w)) r =
      (code : ℕ) × (400 ≤ code)
      × (code ≤ 504)
      × (r
          ≡ some (
            stop,
            taken id (record w {
              outside =
                  host.sdk.send_local_response code (codes "plugin_error") e.message [] w.outside;
            }),
          ))
  Answers {A} stop id (some (fine _, w)) r =
      (status : A) × (w' : World V S) × (r ≡ some (status, taken id w')) × (w'.outside ≡ w.outside)

  headers_seat-outside :
      (id : ℕ) (w : World V S) (status : FilterHeadersStatus)
      → (w' : World V S) × ((elim status [
        | continue ↦ taken id (passed_on machine host w)
        | _ ↦ taken id w
      ])
          ≡ taken id w')
        × (w'.outside ≡ w.outside)
  headers_seat-outside id w continue = (_, refl, refl)
  headers_seat-outside id w stop_iteration = (_, refl, refl)
  headers_seat-outside id w continue_and_end_stream = (_, refl, refl)
  headers_seat-outside id w stop_all_iteration_and_buffer = (_, refl, refl)
  headers_seat-outside id w stop_all_iteration_and_watermark = (_, refl, refl)

  headers_end-Answers :
      (id : ℕ) (o : Option (StatusOr ExecutionState × World V S))
      → Answers stop_iteration id o (Option.map (headers_end machine host id) o)
  unfolding handle_event_error absl_status_to_http_status_code
  headers_end-Answers id none = refl
  headers_end-Answers id (some (failed e, w)) =
      (_, (http_code_bounds e.code).0, (http_code_bounds e.code).1, refl)
  headers_end-Answers id (some (fine x, w)) =
      let (w', p, q) = headers_seat-outside id w (headers_status w.self.yield_reason) in
      (_, w', ap (λ (x : Seat V S). some (headers_status w.self.yield_reason, x)) p, q)

  data_seat-outside :
      (id : ℕ) (w : World V S) (status : FilterDataStatus)
      → (w' : World V S) × ((elim status [
        | continue_data ↦ taken id (passed_on machine host w)
        | _ ↦ taken id w
      ])
          ≡ taken id w')
        × (w'.outside ≡ w.outside)
  data_seat-outside id w continue_data = (_, refl, refl)
  data_seat-outside id w stop_iteration_and_buffer = (_, refl, refl)
  data_seat-outside id w stop_iteration_and_watermark = (_, refl, refl)
  data_seat-outside id w stop_iteration_no_buffer = (_, refl, refl)

  data_end-Answers :
      (id : ℕ) (o : Option (StatusOr ExecutionState × World V S))
      → Answers stop_iteration_no_buffer id o (Option.map (data_end machine host id) o)
  unfolding handle_event_error absl_status_to_http_status_code
  data_end-Answers id none = refl
  data_end-Answers id (some (failed e, w)) =
      (_, (http_code_bounds e.code).0, (http_code_bounds e.code).1, refl)
  data_end-Answers id (some (fine x, w)) =
      let (w', p, q) = data_seat-outside id w (data_status w.self.yield_reason) in
      (_, w', ap (λ (x : Seat V S). some (data_status w.self.yield_reason, x)) p, q)

  trailers_seat-outside :
      (id : ℕ) (w : World V S) (status : FilterTrailersStatus)
      → (w' : World V S) × ((elim status [
        | continue_trailers ↦ taken id (passed_on machine host w)
        | _ ↦ taken id w
      ])
          ≡ taken id w')
        × (w'.outside ≡ w.outside)
  trailers_seat-outside id w continue_trailers = (_, refl, refl)
  trailers_seat-outside id w stop_iteration_trailers = (_, refl, refl)

  trailers_end-Answers :
      (id : ℕ) (o : Option (StatusOr ExecutionState × World V S))
      → Answers stop_iteration_trailers id o (Option.map (trailers_end machine host id) o)
  unfolding handle_event_error absl_status_to_http_status_code
  trailers_end-Answers id none = refl
  trailers_end-Answers id (some (failed e, w)) =
      (_, (http_code_bounds e.code).0, (http_code_bounds e.code).1, refl)
  trailers_end-Answers id (some (fine x, w)) =
      let (w', p, q) = trailers_seat-outside id w (trailers_status w.self.yield_reason) in
      (_, w', ap (λ (x : Seat V S). some (trailers_status w.self.yield_reason, x)) p, q)

  -- Every event whose coroutine fails stops the stream and answers the client with 4xx or 5xx and the
  -- message of the error; an event that does not fail answers nothing of its own.
  pub failed_event_is_answered :
      (fuel n : ℕ) (end_of_stream : Bool) (id : ℕ) (w : World V S)
      → let lua = machine.thread id in
        Answers stop_iteration id
          (handle_headers lua host fuel n end_of_stream w)
          (handle_headers_event machine host fuel n end_of_stream (taken id w))
        × Answers stop_iteration_no_buffer id
            (handle_body lua host fuel n end_of_stream w)
            (handle_body_event machine host fuel n end_of_stream (taken id w))
        × Answers stop_iteration_trailers id
            (handle_trailers lua host fuel n w)
            (handle_trailers_event machine host fuel n (taken id w))
  unfolding handle_headers_event handle_body_event handle_trailers_event
  failed_event_is_answered fuel n end_of_stream id w =
      (headers_end-Answers id _, data_end-Answers id _, trailers_end-Answers id _)

  -- The world of an event that has a result, with the flag of the headers as it was.
  abbrev pub AsMarked : Bool → World V S → Type 0
  AsMarked b w = w.self.headers_passed_on ≡ b

  -- The flag of the headers after an event: set exactly if it was set or the stream goes on.
  abbrev pub Marks : {A : Type 0} → (A → Bool) → Bool → Option (A × Seat V S) → Type 0
  Marks goes_on b none = Unit
  Marks goes_on b (some (status, empty s)) = goes_on status ≡ false
  Marks goes_on b (some (status, taken id w)) = w.self.headers_passed_on ≡ (b || goes_on status)

  headers_end-Marks :
      (b : Bool) (id : ℕ) (o : Option (StatusOr ExecutionState × World V S))
      → Leaves (AsMarked b) o
      → Marks headers_go_on b (Option.map (headers_end machine host id) o)
  unfolding mark_headers_passed_on
  headers_end-Marks b id none h = tt
  headers_end-Marks b id (some (failed e, w)) h = ground (arith, h)
  headers_end-Marks b id (some (fine _, w)) h = ground (arith, h)

  data_end-Marks :
      (b : Bool) (id : ℕ) (o : Option (StatusOr ExecutionState × World V S))
      → Leaves (AsMarked b) o
      → Marks data_go_on b (Option.map (data_end machine host id) o)
  unfolding mark_headers_passed_on
  data_end-Marks b id none h = tt
  data_end-Marks b id (some (failed e, w)) h = ground (arith, h)
  data_end-Marks b id (some (fine _, w)) h = ground (arith, h)

  trailers_end-Marks :
      (b : Bool) (id : ℕ) (o : Option (StatusOr ExecutionState × World V S))
      → Leaves (AsMarked b) o
      → Marks trailers_go_on b (Option.map (trailers_end machine host id) o)
  unfolding mark_headers_passed_on
  trailers_end-Marks b id none h = tt
  trailers_end-Marks b id (some (failed e, w)) h = ground (arith, h)
  trailers_end-Marks b id (some (fine _, w)) h = ground (arith, h)

  offer-AsMarked :
      (lua : Lua V) (b : Bool) (complaint : Text) (x : Argument) (w : World V S)
      → AsMarked b w
      → AsMarked b (offer lua host complaint x w).1
  offer-AsMarked lua b complaint x w h =
      (offer-HasFlags lua host w.self.stream_ended b complaint x w (refl, h)).1

  resume_script-AsMarked :
      (lua : Lua V) (b : Bool) (n : ℕ) (w : World V S)
      → AsMarked b w
      → AsMarked b (resume_script lua host n w).1
  resume_script-AsMarked lua b n w h =
      (resume_script-HasFlags lua host w.self.stream_ended b n w (refl, h)).1

  -- After every event the headers count as passed on exactly if they did before or the event lets the
  -- stream go on. So a script cannot pass them on, and a failed event does not.
  pub events_mark_headers :
      (fuel n : ℕ) (end_of_stream : Bool) (id : ℕ) (w : World V S)
      → Marks headers_go_on w.self.headers_passed_on
          (handle_headers_event machine host fuel n end_of_stream (taken id w))
        × Marks data_go_on w.self.headers_passed_on
            (handle_body_event machine host fuel n end_of_stream (taken id w))
        × Marks trailers_go_on w.self.headers_passed_on
            (handle_trailers_event machine host fuel n (taken id w))
  unfolding handle_headers_event handle_body_event handle_trailers_event
  events_mark_headers fuel n end_of_stream id w =
      let lua = machine.thread id in
      let b = w.self.headers_passed_on in
      (
        headers_end-Marks b id _ (
            handle_headers-keeps lua host (AsMarked b) (offer-AsMarked lua b)
              (resume_script-AsMarked lua b) (λ v k. k) fuel n end_of_stream w refl),
        data_end-Marks b id _ (
            handle_body-keeps lua host (AsMarked b) (offer-AsMarked lua b)
              (resume_script-AsMarked lua b) (λ v k. k) fuel n end_of_stream w refl (ground arith)),
        trailers_end-Marks b id _ (
            handle_trailers-keeps lua host (AsMarked b) (offer-AsMarked lua b)
              (resume_script-AsMarked lua b) (λ v k. k) fuel n w refl (λ e. refl)),
      )
