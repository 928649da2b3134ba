-- ===== src/Lua/Coroutine/Events.antt =====
-- plugins/samples/lua/coroutine.cc: the events of a stream.
use service_extensions_sampl.Base.{
  Text, codes, ℕ, Bool, true, false, not, ◌&&◌, ◌||◌, Option, some, [], ◌∷◌, if◌then◌else◌,
}
use service_extensions_sampl.Lua.Status.{failed_precondition, StatusOr, fine, error_of}
use service_extensions_sampl.Lua.Script.{
  ExecutionState, Argument, handle_argument, nil_argument, Lua, Host,
}
use service_extensions_sampl.Lua.Thread.{execute_function}
use service_extensions_sampl.Lua.State.{Coroutine, is_exited, is_wait_to_start}
use service_extensions_sampl.Lua.Handle.{handle_call}
use service_extensions_sampl.Lua.Coroutine.{
  World, as_it_is, body_argument, body_arrives, chunk_consumed, complete, complete_if_ended, forget,
  function_of, hand_over, headers_arrive, is_body, is_chunks, is_headers, is_trailers, outcome,
  plain_headers, plain_trailers, then_do, trailers_arrive,
}

module _ {V S : Type 0} (lua : Lua V) (host : Host S) where
  -- `ExecuteFunction` and the lines on its result.
  unfoldable pub begin_script : World V S → StatusOr Unit × World V S
  begin_script w =
      let (r, w') = outcome w (
        execute_function lua (handle_call host) (function_of w.self.mode) (handle_argument ∷ [])
          w.thread (w.self, w.outside)) in
      (forget r, w')

  unfoldable pub start : ℕ → World V S → Option (StatusOr ExecutionState × World V S)
  unfolding complete_if_ended begin_script
  start fuel w =
      if is_exited w.self.state || not (is_wait_to_start w.self.yield_reason)
      then some (error_of failed_precondition (codes "Cannot start already started coroutine"), w)
      else complete_if_ended lua host fuel (begin_script w)

  -- Hand the argument over if the test says so.
  abbrev pub hand_over_if :
      Bool → Text → Argument → (Coroutine → Coroutine) → World V S → StatusOr Unit × World V S
  hand_over_if true complaint a change w = hand_over lua host complaint a change w
  hand_over_if false complaint a change w = (fine tt, w)

  unfoldable pub give_headers : World V S → StatusOr Unit × World V S
  unfolding hand_over
  give_headers w =
      hand_over_if (is_headers w.self.yield_reason) (codes "Failed to push headers to coroutine: ")
        (plain_headers w) as_it_is w

  unfoldable pub handle_headers :
      ℕ → ℕ → Bool → World V S → Option (StatusOr ExecutionState × World V S)
  unfolding complete_if_ended give_headers
  handle_headers fuel num_headers end_of_stream w =
      complete_if_ended lua host fuel
        (give_headers (record w { self = headers_arrive end_of_stream w.self }))

  unfoldable pub give_chunk : World V S → StatusOr Unit × World V S
  unfolding hand_over
  give_chunk w =
      hand_over_if
        (is_chunks w.self.yield_reason || (is_body w.self.yield_reason && w.self.stream_ended))
        (codes "Failed to push body to coroutine: ") (body_argument w) chunk_consumed w

  unfoldable pub handle_body :
      ℕ → ℕ → Bool → World V S → Option (StatusOr ExecutionState × World V S)
  unfolding complete_if_ended give_chunk
  handle_body fuel body_buffer_length end_of_stream w =
      if w.self.stream_ended
      then some (error_of failed_precondition (codes "Cannot handle body on ended stream"), w)
      else let w' = record w { self = body_arrives body_buffer_length end_of_stream w.self } in
        if is_exited w'.self.state
        then some (fine w'.self.state, w')
        else complete_if_ended lua host fuel (give_chunk w')

  -- The three tests of `HandleTrailers`, each on the reason that the one before it left.
  unfoldable pub give_body : World V S → StatusOr Unit × World V S
  unfolding hand_over
  give_body w =
      hand_over_if (is_body w.self.yield_reason) (codes "Failed to push body to coroutine: ")
        (body_argument w) as_it_is w

  unfoldable pub give_nil : World V S → StatusOr Unit × World V S
  unfolding hand_over
  give_nil w =
      hand_over_if (is_chunks w.self.yield_reason) (codes "Failed to push nil to coroutine: ")
        nil_argument as_it_is w

  unfoldable pub give_trailers : World V S → StatusOr Unit × World V S
  unfolding hand_over
  give_trailers w =
      hand_over_if (is_trailers w.self.yield_reason)
        (codes "Failed to push trailers to coroutine: ") (plain_trailers w) as_it_is w

  unfoldable pub handle_trailers : ℕ → ℕ → World V S → Option (StatusOr ExecutionState × World V S)
  unfolding complete give_body give_nil give_trailers
  handle_trailers fuel num_trailers w =
      if w.self.stream_ended
      then some (error_of failed_precondition (codes "Cannot handle trailers on ended stream"), w)
      else if not w.self.received_headers
      then some
          (error_of failed_precondition (codes "Cannot process trailers before stream headers"), w)
      else if w.self.received_trailers
      then some (error_of failed_precondition (codes "Trailers already received"), w)
      else let w' = record w { self = trailers_arrive w.self } in
        if is_exited w'.self.state
        then some (fine w'.self.state, w')
        else complete lua host fuel (then_do (then_do (give_body w') give_nil) give_trailers)

  unfoldable pub handle_http_response : ℕ → ℕ → ℕ → World V S → StatusOr ExecutionState × World V S
  handle_http_response headers body_size trailers w = (fine w.self.state, w)
