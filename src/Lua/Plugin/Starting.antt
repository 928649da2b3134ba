-- ===== src/Lua/Plugin/Starting.antt =====
-- plugins/samples/lua/lua_plugin.cc: a script without the function of a direction.
use service_extensions_sampl.Base.{
  Text, ℕ, ◌≡◌, refl, Bool, false, some, List, [], ◌∷◌, ◌++◌, codes,
}
use service_extensions_sampl.Wasm.{stop_iteration, error}
use service_extensions_sampl.Lua.Status.{Status, failed, not_found}
use service_extensions_sampl.Lua.Script.{
  Mode, exited, Lua, Host, Call, Reply, Argument, handle_argument,
}
use service_extensions_sampl.Lua.Thread.{
  execute_function, execute_function_impl, can_execute_function, new_thread,
}
use service_extensions_sampl.Lua.State.{new_coroutine}
use service_extensions_sampl.Lua.Coroutine.{complete_if_ended, start_world, function_of}
use service_extensions_sampl.Lua.Coroutine.Events.{start, begin_script}
use service_extensions_sampl.Lua.Handle.{handle_call}
use service_extensions_sampl.Lua.Interpreter.{Interpreter}
use service_extensions_sampl.Lua.Plugin.{taken, start_and_handle}

-- The error of a global function that is not there.
abbrev pub missing : Text → Status
missing name = record {
  code = not_found;
  message = codes "could not find " ++ name ++ codes " as a global function";
}

abbrev pub restored : {V : Type 0} → Lua V → Text → V → V
restored lua name v = lua.set_top (lua.get_top v) (lua.get_global name v)

module _ {V E : Type 0} (lua : Lua V) (handler : Call → E → Reply × E) where
  not_executed :
      (name : Text) (args : List Argument) (v : V) (e : E)
      → lua.is_suspended v ≡ false
      → lua.is_function (lua.get_global name v) ≡ false
      → execute_function lua handler name args (new_thread v) e
        ≡ (failed (missing name), new_thread (restored lua name v), e)
  unfolding execute_function execute_function_impl can_execute_function
  not_executed name args v e p q =
      rw (execute_function, can_execute_function, p, execute_function_impl, q) refl

module _ {V S : Type 0} (machine : Interpreter V S) (host : Host S) where
  -- A new stream whose script lacks the function of its direction is stopped, and nothing is sent: the
  -- host only gets a log message.
  pub missing_function_stops :
      (complaint : Status → Text) (fuel n : ℕ) (end_of_stream : Bool) (id : ℕ) (mode : Mode) (v : V)
      (s : S)
      → (machine.thread id).is_suspended v ≡ false
      → (machine.thread id).is_function ((machine.thread id).get_global (function_of mode) v)
        ≡ false
      → start_and_handle machine host complaint fuel n end_of_stream
          (taken id (start_world mode v s))
        ≡ some (
          stop_iteration,
          taken id (record {
            self = record (new_coroutine mode) { state = exited };
            thread = new_thread (restored (machine.thread id) (function_of mode) v);
            outside = host.sdk.log error (complaint (missing (function_of mode))) s;
          }),
        )
  unfolding start_and_handle start begin_script complete_if_ended new_coroutine
  missing_function_stops complaint fuel n end_of_stream id mode v s p q =
      rw
        (
          start_and_handle,
          start,
          begin_script,
          not_executed (machine.thread id) (handle_call host) (function_of mode)
              (handle_argument ∷ []) v (new_coroutine mode, s) p q,
        )
        refl
