-- ===== src/Tests/Lua.antt =====
-- The theorems on the Lua plugin at concrete streams.
use service_extensions_sampl.Base.{
  ℕ, ◌≤◌, ◌<◌, ◌≡◌, refl, true, false, some, List, [], ◌∷◌, arith, length, codes,
}
use service_extensions_sampl.Wasm.{stop_iteration, stop_iteration_no_buffer, error}
use service_extensions_sampl.Lua.Status.{fine, failed, Status, failed_precondition}
use service_extensions_sampl.Lua.Script.{
  request_mode, response_mode, exited, yielded, Call, asks_headers, asks_trailers, asks_chunk, adds,
  Reply, yields, Activity, wait_for_headers,
}
use service_extensions_sampl.Lua.Thread.{
  run, resume, finish, execute_function, execute_function_impl, can_execute_function, push_args,
  yield_results, new_thread,
}
use service_extensions_sampl.Lua.State.{new_coroutine, yield}
use service_extensions_sampl.Lua.Handle.{handle_call, ask_headers}
use service_extensions_sampl.Lua.Coroutine.{World, start_world, complete_if_ended, function_of}
use service_extensions_sampl.Lua.Coroutine.Events.{
  start, handle_headers, handle_body, handle_trailers, begin_script,
}
use service_extensions_sampl.Lua.Coroutine.Frames.{IsSound, fresh, started, Life-IsSound}
use service_extensions_sampl.Lua.Coroutine.Rank.{Falls, Tires}
use service_extensions_sampl.Lua.Coroutine.Completion.{Settles, last_event-Settles}
use service_extensions_sampl.Lua.Plugin.{
  taken, handle_headers_event, handle_body_event, handle_trailers_event, start_and_handle,
}
use service_extensions_sampl.Lua.Plugin.Laws.{
  events_mark_headers, failed_event_is_answered, Marks, headers_go_on, data_go_on, trailers_go_on,
}
use service_extensions_sampl.Lua.Plugin.Starting.{missing_function_stops, missing, restored}
use service_extensions_sampl.Tests.Host.{Fake, request}
use service_extensions_sampl.Tests.Toy.{
  Toy, play, after_call, toy, toy_host, toy_machine, script, plain, guarded, before, late,
}

-- The script waits for the headers after its start.
abbrev pub waiting : World Toy Fake
waiting = record (before late) {
  self = record (new_coroutine request_mode) { yield_reason = wait_for_headers };
  thread = record {
    vm = record (script late) {
      plan = asks_chunk ∷ adds plain (codes "x") (codes "1") ∷ asks_trailers ∷ [];
      suspended = true;
    };
    is_finished = false;
    is_running = false;
  };
}

starts : start toy toy_host 9 (before late) ≡ some (fine yielded, waiting)
unfolding start begin_script complete_if_ended execute_function execute_function_impl
    can_execute_function push_args resume run finish handle_call ask_headers yield yield_results
    new_coroutine
starts = refl

Life-IsSound_example : IsSound waiting
Life-IsSound_example = Life-IsSound toy toy_host (started 9 fresh starts)

abbrev rank : Toy → ℕ
rank v = length v.plan

after_call-Falls :
    (k : ℕ) (v : Toy) (a : Activity Toy)
    → rank v < k
    → Falls rank k a
    → (r : Reply) → Falls rank k (after_call v a r)
after_call-Falls k v a h f (yields n) = h
after_call-Falls k v a h f (Reply.gives_header x) = f
after_call-Falls k v a h f (Reply.gives_buffer x) = f
after_call-Falls k v a h f (Reply.gives_status x) = f
after_call-Falls k v a h f (Reply.gives_value x) = f
after_call-Falls k v a h f (Reply.gives_number x) = f
after_call-Falls k v a h f (Reply.gives_pairs x) = f
after_call-Falls k v a h f (Reply.gives_bytes x) = f
after_call-Falls k v a h f Reply.gives_nothing = f

play-Falls : (k : ℕ) (cs : List Call) (v : Toy) → length cs ≤ k → Falls rank k (play cs v)
play-Falls k [] v h = tt
play-Falls k (c ∷ cs) v h =
    after_call-Falls k (record v { plan = cs; suspended = true }) (play cs v) (omega (arith, h))
      (play-Falls k cs v (omega (arith, h)))

tires : Tires toy rank
tires = record {
  push_falls = λ a v. omega arith;
  resume_falls = λ n v. play-Falls (length v.plan) v.plan v (omega arith);
}

last_event-Settles_example :
    Settles (handle_headers toy toy_host 9 3 true waiting)
    × Settles (handle_body toy toy_host 9 3 true waiting)
    × Settles (handle_trailers toy toy_host 9 3 waiting)
last_event-Settles_example = last_event-Settles toy toy_host rank tires 9 3 waiting (omega arith)

-- A script that changes only guarded objects.
abbrev careful : List Call
careful = asks_headers ∷ asks_chunk ∷ adds guarded (codes "x") (codes "1") ∷ []

events_mark_headers_example :
    Marks toy_machine toy_host headers_go_on false
      (handle_headers_event toy_machine toy_host 9 3 false (taken 1 waiting))
    × Marks toy_machine toy_host data_go_on false
        (handle_body_event toy_machine toy_host 9 3 false (taken 1 waiting))
    × Marks toy_machine toy_host trailers_go_on false
        (handle_trailers_event toy_machine toy_host 9 3 (taken 1 waiting))
unfolding new_coroutine
events_mark_headers_example = events_mark_headers toy_machine toy_host 9 3 false 1 waiting

-- A stream that has ended.
abbrev over : World Toy Fake
over = record waiting { self = record waiting.self { stream_ended = true } }

abbrev on_ended : Status
on_ended = record {
  code = failed_precondition;
  message = codes "Cannot handle body on ended stream";
}

refuses : handle_body toy toy_host 9 3 false over ≡ some (failed on_ended, over)
unfolding handle_body new_coroutine
refuses = refl

failed_event_is_answered_example :
    (code : ℕ) × (400 ≤ code)
    × (code ≤ 504)
    × (handle_body_event toy_machine toy_host 9 3 false (taken 1 over)
        ≡ some (
          stop_iteration_no_buffer,
          taken 1 (record over {
            outside =
                toy_host.sdk.send_local_response code
                  (codes "plugin_error")
                  (codes "Cannot handle body on ended stream")
                  []
                  over.outside;
          }),
        ))
unfolding handle_body new_coroutine
failed_event_is_answered_example =
    (failed_event_is_answered toy_machine toy_host 9 3 false 1 over).1

abbrev pub empty_script : Toy
empty_script = record { suspended = false; plan = []; has_function = false; raw = false }

missing_function_stops_example :
    start_and_handle toy_machine toy_host
      (λ e. e.message)
      9
      3
      false
      (taken 1 (start_world response_mode empty_script (request [] [])))
    ≡ some (
      stop_iteration,
      taken 1 (record {
        self = record (new_coroutine response_mode) { state = exited };
        thread = new_thread (restored toy (function_of response_mode) empty_script);
        outside =
            toy_host.sdk.log error (missing (function_of response_mode)).message (request [] []);
      }),
    )
missing_function_stops_example =
    missing_function_stops toy_machine toy_host (λ e. e.message) 9 3 false 1 response_mode
      empty_script (request [] []) refl refl
