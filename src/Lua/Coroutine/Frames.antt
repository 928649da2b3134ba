-- ===== src/Lua/Coroutine/Frames.antt =====
-- plugins/samples/lua/coroutine.cc: what holds of a coroutine and its thread after any events, in any
-- order, with any script. `Life` lists the calls that change a coroutine.
use service_extensions_sampl.Base.{
  Text, ℕ, ◌≡◌, refl, Bool, true, false, some, [], ◌∷◌, arith, if-both,
}
use service_extensions_sampl.Lua.Status.{StatusOr, fine, failed}
use service_extensions_sampl.Lua.Script.{
  ExecutionState, exited, yielded, Argument, Lua, Host, YieldReason, Activity, Call, Mode,
  handle_argument,
}
use service_extensions_sampl.Lua.Thread.{Thread, resume}
use service_extensions_sampl.Lua.Thread.Laws.{
  Only, resume-keeps, execute_function-keeps, IsIdle, resume-IsIdle, execute_function-IsIdle,
}
use service_extensions_sampl.Lua.State.{Coroutine, is_exited, new_coroutine, mark_headers_passed_on}
use service_extensions_sampl.Lua.Handle.{handle_call}
use service_extensions_sampl.Lua.Coroutine.{
  World, offer, function_of, start_world, resume_script, chunk_consumed, outcome,
}
use service_extensions_sampl.Lua.Coroutine.Events.{
  begin_script, start, handle_headers, handle_body, handle_trailers, give_headers, give_chunk,
}
use service_extensions_sampl.Lua.Handle.Laws.{Frame, handle_call-Frame}
use service_extensions_sampl.Lua.Coroutine.Laws.{
  Leaves, start-keeps, handle_headers-keeps, handle_body-keeps, handle_trailers-keeps,
  give_headers-keeps, give_chunk-keeps,
}

-- The thread does not run, and if it has finished, the coroutine has exited. Trailers came after headers.
pub record IsSound {V S : Type 0} (w : World V S) : Type 0 where
  pub idle : w.thread.is_running ≡ false
  pub finished : w.thread.is_finished ≡ true → is_exited w.self.state ≡ true
  pub ordered : w.self.received_trailers ≡ true → w.self.received_headers ≡ true

module _ {V S : Type 0} (lua : Lua V) (host : Host S) where
  Only-all : (a : Activity V) → Only (λ c. Unit) a
  Only-all (Activity.ends code v) = tt
  Only-all (Activity.calls c next) = (tt, λ r. Only-all (next r))

  call-Frame :
      (c₀ : Coroutine) (c : Call) (e : Coroutine × S)
      → Frame c₀ e.0
      → Frame c₀ (handle_call host c e).1.0
  call-Frame c₀ c (c', s) h = handle_call-Frame host c c₀ c' s h

  resume-Frame :
      (n : ℕ) (t : Thread V) (c : Coroutine) (s : S)
      → Frame c (resume lua (handle_call host) n t (c, s)).2.0
  resume-Frame n t c s =
      resume-keeps lua (handle_call host) (λ c. Unit) (λ e. Frame c e.0)
        (λ k e q h. call-Frame c k e h) (λ m v. Only-all (lua.resume m v)) n t (c, s) refl

  offer-IsSound :
      (complaint : Text) (a : Argument) (w : World V S)
      → IsSound w
      → IsSound (offer lua host complaint a w).1
  unfolding offer
  offer-IsSound complaint a w h = ground (arith, h)

  outcome-IsSound :
      (w : World V S) (c₀ : Coroutine) (r : StatusOr ExecutionState) (t : Thread V) (c : Coroutine)
      (s : S)
      → (c₀.received_trailers ≡ true → c₀.received_headers ≡ true)
      → IsIdle r t
      → Frame c₀ c
      → IsSound (outcome w (r, t, (c, s))).1
  outcome-IsSound w c₀ (failed e) t c s o h f = ground (arith, h, o, f)
  outcome-IsSound w c₀ (fine exited) t c s o h f = ground (arith, h, o, f)
  outcome-IsSound w c₀ (fine yielded) t c s o h f = ground (arith, h, o, f)

  resume_script-IsSound :
      (n : ℕ) (w : World V S) → IsSound w → IsSound (resume_script lua host n w).1
  unfolding resume_script
  resume_script-IsSound n w h =
      let c = record w.self { yield_reason = YieldReason.no_reason } in
      if-both {A = StatusOr ExecutionState × World V S} (λ q. IsSound q.1) (is_exited w.self.state)
        _ _ h
        (outcome-IsSound w c _ _ _ _ h.ordered
          (resume-IsIdle lua (handle_call host) n w.thread (c, w.outside) h.idle)
          (resume-Frame n w.thread c w.outside))

  consume-IsSound :
      (w : World V S) → IsSound w → IsSound (record w { self = chunk_consumed w.self })
  consume-IsSound w h = ground (arith, h)

  -- Only the events set these two flags.
  abbrev pub HasFlags : Bool → Bool → World V S → Type 0
  HasFlags ended passed w = (w.self.stream_ended ≡ ended) × (w.self.headers_passed_on ≡ passed)

  outcome-HasFlags :
      (a b : Bool) (w : World V S) (c₀ : Coroutine) (r : StatusOr ExecutionState) (t : Thread V)
      (c : Coroutine) (s : S)
      → (c₀.stream_ended ≡ a) × (c₀.headers_passed_on ≡ b)
      → Frame c₀ c
      → HasFlags a b (outcome w (r, t, (c, s))).1
  outcome-HasFlags a b w c₀ (failed e) t c s h f = ground (arith, h, f)
  outcome-HasFlags a b w c₀ (fine x) t c s h f = ground (arith, h, f)

  pub resume_script-HasFlags :
      (a b : Bool) (n : ℕ) (w : World V S)
      → HasFlags a b w
      → HasFlags a b (resume_script lua host n w).1
  unfolding resume_script
  resume_script-HasFlags a b n w h =
      let c = record w.self { yield_reason = YieldReason.no_reason } in
      if-both {A = StatusOr ExecutionState × World V S} (λ q. HasFlags a b q.1)
        (is_exited w.self.state) _ _ h
        (outcome-HasFlags a b w c _ _ _ _ h (resume-Frame n w.thread c w.outside))

  pub offer-HasFlags :
      (a b : Bool) (complaint : Text) (x : Argument) (w : World V S)
      → HasFlags a b w
      → HasFlags a b (offer lua host complaint x w).1
  unfolding offer
  offer-HasFlags a b complaint x w h = ground (arith, h)

  pub give_headers-ended :
      (w : World V S)
      → w.self.stream_ended ≡ true
      → (give_headers lua host w).1.self.stream_ended ≡ true
  give_headers-ended w h =
      (give_headers-keeps lua host (HasFlags true w.self.headers_passed_on)
        (offer-HasFlags true w.self.headers_passed_on)
        (resume_script-HasFlags true w.self.headers_passed_on) (λ v k. k) w (h, refl)).0

  pub give_chunk-ended :
      (w : World V S)
      → w.self.stream_ended ≡ true
      → (give_chunk lua host w).1.self.stream_ended ≡ true
  give_chunk-ended w h =
      (give_chunk-keeps lua host (HasFlags true w.self.headers_passed_on)
        (offer-HasFlags true w.self.headers_passed_on)
        (resume_script-HasFlags true w.self.headers_passed_on) (λ v k. k) w (h, refl)).0

  begin_script-IsSound : (w : World V S) → IsSound w → IsSound (begin_script lua host w).1
  unfolding begin_script
  begin_script-IsSound w h =
      outcome-IsSound w w.self _ _ _ _ h.ordered
        (execute_function-IsIdle lua (handle_call host) (function_of w.self.mode)
          (handle_argument ∷ []) w.thread (w.self, w.outside) h.idle)
        (execute_function-keeps lua (handle_call host) (λ c. Unit) (λ e. Frame w.self e.0)
          (λ k e q f. call-Frame w.self k e f) (λ m v. Only-all (lua.resume m v))
          (function_of w.self.mode) (handle_argument ∷ []) w.thread (w.self, w.outside) refl)

  start-IsSound : (fuel : ℕ) (w : World V S) → IsSound w → Leaves IsSound (start lua host fuel w)
  start-IsSound fuel w h =
      start-keeps lua host IsSound offer-IsSound resume_script-IsSound consume-IsSound fuel w h
        (begin_script-IsSound w h)

  handle_headers-IsSound :
      (fuel n : ℕ) (b : Bool) (w : World V S)
      → IsSound w
      → Leaves IsSound (handle_headers lua host fuel n b w)
  handle_headers-IsSound fuel n b w h =
      handle_headers-keeps lua host IsSound offer-IsSound resume_script-IsSound consume-IsSound fuel
        n b w (ground (arith, h))

  handle_body-IsSound :
      (fuel n : ℕ) (b : Bool) (w : World V S)
      → IsSound w
      → Leaves IsSound (handle_body lua host fuel n b w)
  handle_body-IsSound fuel n b w h =
      handle_body-keeps lua host IsSound offer-IsSound resume_script-IsSound consume-IsSound fuel n
        b w h (ground (arith, h))

  handle_trailers-IsSound :
      (fuel n : ℕ) (w : World V S) → IsSound w → Leaves IsSound (handle_trailers lua host fuel n w)
  handle_trailers-IsSound fuel n w h =
      handle_trailers-keeps lua host IsSound offer-IsSound resume_script-IsSound consume-IsSound
        fuel n w h (λ e. ground (arith, h, e))

  -- The worlds that the events lead to.
  pub data Life (mode : Mode) (v : V) (s : S) : World V S → Type 0 where
    fresh : Life mode v s (start_world mode v s)
    marked :
        {w : World V S}
        → Life mode v s w
        → Life mode v s (record w { self = mark_headers_passed_on w.self })
    started :
        {w : World V S} (fuel : ℕ) {r : StatusOr ExecutionState} {w' : World V S}
        → Life mode v s w
        → start lua host fuel w ≡ some (r, w')
        → Life mode v s w'
    had_headers :
        {w : World V S} (fuel n : ℕ) (b : Bool) {r : StatusOr ExecutionState} {w' : World V S}
        → Life mode v s w
        → handle_headers lua host fuel n b w ≡ some (r, w')
        → Life mode v s w'
    had_body :
        {w : World V S} (fuel n : ℕ) (b : Bool) {r : StatusOr ExecutionState} {w' : World V S}
        → Life mode v s w
        → handle_body lua host fuel n b w ≡ some (r, w')
        → Life mode v s w'
    had_trailers :
        {w : World V S} (fuel n : ℕ) {r : StatusOr ExecutionState} {w' : World V S}
        → Life mode v s w
        → handle_trailers lua host fuel n w ≡ some (r, w')
        → Life mode v s w'

  -- After any events of a stream in any order, with any script: the thread is not left running, a
  -- coroutine whose thread has finished has exited, and trailers were only received after headers.
  pub Life-IsSound : {mode : Mode} {v : V} {s : S} {w : World V S} → Life mode v s w → IsSound w
  unfolding new_coroutine mark_headers_passed_on
  Life-IsSound fresh = ground arith
  Life-IsSound (marked l) = ground (arith, Life-IsSound l)
  Life-IsSound (started {w} fuel l e) = rw e at (start-IsSound fuel w (Life-IsSound l))
  Life-IsSound (had_headers {w} fuel n b l e) =
      rw e at (handle_headers-IsSound fuel n b w (Life-IsSound l))
  Life-IsSound (had_body {w} fuel n b l e) =
      rw e at (handle_body-IsSound fuel n b w (Life-IsSound l))
  Life-IsSound (had_trailers {w} fuel n l e) =
      rw e at (handle_trailers-IsSound fuel n w (Life-IsSound l))
