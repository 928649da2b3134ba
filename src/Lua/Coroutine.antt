-- ===== src/Lua/Coroutine.antt =====
-- plugins/samples/lua/coroutine.cc: how a coroutine resumes its script and runs it to completion; the
-- events stand in Lua.Coroutine.Events. `World`
-- holds the coroutine, its thread and the host. The loop of `RunToCompletion` has fuel; Lua.Coroutine.Completion
-- shows how much a script needs that waits only so often. `none` is that the fuel ran out.
pub mod Laws
pub mod Frames
pub mod Passing
pub mod Completion
pub mod Events
pub mod Rank
use mathlib.Core.Option
use service_extensions_sampl.Base.{
  Text, codes, ℕ, zero, suc, Bool, true, false, not, ◌&&◌, Option, none, some, ◌++◌, ltb,
  if◌then◌else◌,
}
use service_extensions_sampl.Lua.Status.{
  internal, failed_precondition, StatusOr, fine, failed, error_of,
}
use service_extensions_sampl.Lua.Script.{
  Mode, request_mode, response_mode, ExecutionState, exited, YieldReason, no_reason,
  wait_for_headers, wait_for_body, wait_for_body_chunks, wait_for_trailers, Argument, nil_argument,
  header_argument, buffer_argument, Lua, Host,
}
use service_extensions_sampl.Lua.Thread.{Thread, new_thread, resume}
use service_extensions_sampl.Lua.State.{
  Coroutine, new_coroutine, headers_of, trailers_of, body_of, is_exited,
}
use service_extensions_sampl.Lua.Handle.{handle_call}

pub record World (V S : Type 0) : Type 0 where
  pub self : Coroutine
  pub thread : Thread V
  pub outside : S

abbrev pub function_of : Mode → Text
function_of request_mode = codes "envoy_on_request"
function_of response_mode = codes "envoy_on_response"

abbrev pub is_chunks : YieldReason → Bool
is_chunks wait_for_body_chunks = true
is_chunks _ = false

abbrev pub is_body : YieldReason → Bool
is_body wait_for_body = true
is_body _ = false

abbrev pub is_headers : YieldReason → Bool
is_headers wait_for_headers = true
is_headers _ = false

abbrev pub is_trailers : YieldReason → Bool
is_trailers wait_for_trailers = true
is_trailers _ = false

-- One round of a loop.
pub data Round (W : Type 0) : Type 0 where
  stops : StatusOr Unit → W → Round W
  goes_on : W → Round W

abbrev pub forget : {A : Type 0} → StatusOr A → StatusOr Unit
forget (fine a) = fine tt
forget (failed e) = failed e

abbrev pub as_it_is : Coroutine → Coroutine
as_it_is c = c

abbrev pub chunk_consumed : Coroutine → Coroutine
chunk_consumed c = record c { body_chunk_consumed = true }

-- The fields that `HandleHeaders` and `HandleTrailers` set.
abbrev pub headers_arrive : Bool → Coroutine → Coroutine
headers_arrive end_of_stream c = record c { stream_ended = end_of_stream; received_headers = true }

abbrev pub trailers_arrive : Coroutine → Coroutine
trailers_arrive c = record c { received_trailers = true; stream_ended = true }

-- The fields that `HandleBody` sets before it looks at the script.
abbrev pub body_arrives : ℕ → Bool → Coroutine → Coroutine
body_arrives length end_of_stream c =
    let c' = record c { stream_ended = end_of_stream } in
    let c'' =
      if ltb 0 length
      then record c' { has_body_data = true; body_chunk_consumed = false }
      else c' in
    if c''.stream_ended then record c'' { received_body = true } else c''

module _ {V S : Type 0} where
  abbrev pub round_of : StatusOr Unit × World V S → Round (World V S)
  round_of (failed e, w) = stops (failed e) w
  round_of (fine _, w) = goes_on w

  abbrev pub next_round :
      (World V S → Option (StatusOr Unit × World V S))
      → Round (World V S)
      → Option (StatusOr Unit × World V S)
  next_round again (stops r w) = some (r, w)
  next_round again (goes_on w) = again w

  abbrev pub body_argument : World V S → Argument
  body_argument w = buffer_argument (body_of w.self.mode)

  -- `Header(header_type)` without a second argument: there is no `is_passed_on_`.
  abbrev pub plain_headers : World V S → Argument
  plain_headers w = header_argument (record { type = headers_of w.self.mode; is_guarded = false })

  abbrev pub plain_trailers : World V S → Argument
  plain_trailers w = header_argument (record { type = trailers_of w.self.mode; is_guarded = false })

  abbrev pub offered : Text → World V S → Option Text × V → StatusOr Unit × World V S
  offered complaint w (some message, v) =
      (error_of internal (complaint ++ message), record w { thread = record w.thread { vm = v } })
  offered complaint w (none, v) = (fine tt, record w { thread = record w.thread { vm = v } })

  abbrev pub then_do :
      StatusOr Unit × World V S
      → (World V S → StatusOr Unit × World V S)
      → StatusOr Unit × World V S
  then_do (failed e, w) next = (failed e, w)
  then_do (fine _, w) next = next w

  abbrev pub start_world : Mode → V → S → World V S
  start_world mode v s = record { self = new_coroutine mode; thread = new_thread v; outside = s }

  abbrev pub outcome :
      World V S
      → StatusOr ExecutionState × Thread V × (Coroutine × S)
      → StatusOr ExecutionState × World V S
  outcome w (failed e, t, (c, s)) =
      (failed e, record { self = record c { state = exited }; thread = t; outside = s })
  outcome w (fine x, t, (c, s)) =
      (fine x, record { self = record c { state = x }; thread = t; outside = s })

  -- `state_` is what a handler returns after RETURN_IF_ERROR.
  abbrev pub returning : StatusOr Unit × World V S → StatusOr ExecutionState × World V S
  returning (failed e, w) = (failed e, w)
  returning (fine _, w) = (fine w.self.state, w)

module _ {V S : Type 0} (lua : Lua V) (host : Host S) where
  -- `luabridge::push` on the stack of the thread, and the words in front of its failure.
  unfoldable pub offer : Text → Argument → World V S → StatusOr Unit × World V S
  offer complaint a w = offered complaint w (lua.push a w.thread.vm)

  unfoldable pub resume_script : ℕ → World V S → StatusOr ExecutionState × World V S
  resume_script narg w =
      if is_exited w.self.state
      then (error_of failed_precondition (codes "Cannot resume exited coroutine"), w)
      else outcome w (
          resume lua (handle_call host) narg w.thread
            (record w.self { yield_reason = no_reason }, w.outside))

  -- Set the flag of the chunk and resume with one argument.
  unfoldable pub resume_with : (Coroutine → Coroutine) → World V S → StatusOr Unit × World V S
  unfolding resume_script
  resume_with change w =
      let (r, w') = resume_script 1 (record w { self = change w.self }) in (forget r, w')

  -- Push, return if that failed, and resume.
  unfoldable pub hand_over :
      Text → Argument → (Coroutine → Coroutine) → World V S → StatusOr Unit × World V S
  unfolding offer resume_with
  hand_over complaint a change w = then_do (offer complaint a w) (resume_with change)

  -- A case of the loop in `RunToCompletion`.
  unfoldable pub hand_round :
      Text → Argument → (Coroutine → Coroutine) → World V S → Round (World V S)
  unfolding hand_over
  hand_round complaint a change w = round_of (hand_over complaint a change w)

  -- The `switch` of `RunToCompletion`.
  unfoldable pub round_for : YieldReason → World V S → Round (World V S)
  unfolding hand_round
  round_for wait_for_body_chunks w =
      if not w.self.body_chunk_consumed && w.self.has_body_data
      then hand_round (codes "Failed to push final body chunk to coroutine: ") (body_argument w)
          chunk_consumed w
      else hand_round (codes "Failed to push nil to coroutine: ") nil_argument as_it_is w
  round_for wait_for_body w =
      hand_round (codes "Failed to push emptybody to coroutine: ") (body_argument w) as_it_is w
  round_for wait_for_trailers w =
      hand_round (codes "Failed to push empty trailers to coroutine: ") (plain_trailers w) as_it_is
        w
  round_for _ w = stops (fine tt) w

  unfoldable pub run_to_completion : ℕ → World V S → Option (StatusOr Unit × World V S)
  unfolding round_for
  run_to_completion zero w = none
  run_to_completion (suc fuel) w =
      if is_exited w.self.state
      then some (fine tt, w)
      else next_round (run_to_completion fuel) (round_for w.self.yield_reason w)

  -- `RETURN_IF_ERROR(RunToCompletion()); return state_;`, unless a call before failed.
  unfoldable pub complete :
      ℕ → StatusOr Unit × World V S → Option (StatusOr ExecutionState × World V S)
  unfolding run_to_completion
  complete fuel (failed e, w) = some (failed e, w)
  complete fuel (fine _, w) = Option.map returning (run_to_completion fuel w)

  -- The same under `if (stream_ended_)`.
  unfoldable pub complete_if_ended :
      ℕ → StatusOr Unit × World V S → Option (StatusOr ExecutionState × World V S)
  unfolding complete
  complete_if_ended fuel (failed e, w) = some (failed e, w)
  complete_if_ended fuel (fine _, w) =
      if w.self.stream_ended then complete fuel (fine tt, w) else some (fine w.self.state, w)
