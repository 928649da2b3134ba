-- ===== src/Lua/Thread.antt =====
-- plugins/samples/lua/lua_state.cc: `LuaState::Thread`. The numbers of arguments are never negative. `handler` is the code that a script calls
-- while it runs, over the state `E` that this code changes.
pub mod Laws
use service_extensions_sampl.Base.{
  Text, codes, ℕ, Bool, true, false, not, ◌&&◌, Option, none, some, List, [], ◌∷◌, ◌++◌, length,
  ltb, ◌==◌, if◌then◌else◌,
}
use service_extensions_sampl.Lua.Status.{
  internal, invalid_argument, failed_precondition, not_found, Status, StatusOr, fine, failed,
  error_of,
}
use service_extensions_sampl.Lua.Script.{
  ExecutionState, exited, yielded, Argument, Call, Reply, ReturnCode, returns_ok, returns_yield,
  returns_error, Activity, ends, calls, Lua,
}

pub record Thread (V : Type 0) : Type 0 where
  pub vm : V
  pub is_finished : Bool
  pub is_running : Bool

abbrev pub new_thread : {V : Type 0} → V → Thread V
new_thread v = record { vm = v; is_finished = false; is_running = false }

-- `Thread::Yield`: what the called function returns is `lua_yield(state, n)`.
unfoldable pub yield_results : ℕ → Reply
yield_results n = Reply.yields n

-- Runs an activity to its end.
unfoldable pub run : {V E : Type 0} → (Call → E → Reply × E) → Activity V → E → (ReturnCode × V) × E
run handler (ends code v) e = ((code, v), e)
run handler (calls c next) e = let (r, e') = handler c e in run handler (next r) e'

abbrev pub or_unknown : Option Text → Text
or_unknown none = codes "Unknown Lua error"
or_unknown (some message) = message

module _ {V : Type 0} (lua : Lua V) where
  unfoldable pub lua_error_to_status : V → Status
  lua_error_to_status v = record {
    code = internal;
    message =
        if lua.get_top v == 0
        then codes "Unknown Lua error (empty stack)"
        else or_unknown (lua.to_string v);
  }

  unfoldable pub read_and_pop_lua_error : V → Status × V
  unfolding lua_error_to_status
  read_and_pop_lua_error v =
      if lua.get_top v == 0
      then (record { code = internal; message = codes "Unknown Lua error (empty stack)" }, v)
      else (lua_error_to_status v, lua.pop v)

  unfoldable pub finish : ReturnCode → V → StatusOr ExecutionState × Thread V
  unfolding read_and_pop_lua_error
  finish returns_ok v = (fine exited, record { vm = v; is_finished = true; is_running = false })
  finish returns_yield v =
      (fine yielded, record { vm = v; is_finished = false; is_running = false })
  finish returns_error v =
      let (status, v') = read_and_pop_lua_error v in
      (failed status, record { vm = v'; is_finished = true; is_running = false })

  unfoldable pub can_execute_function : Thread V → StatusOr Unit
  can_execute_function t =
      if t.is_finished
      then error_of failed_precondition (codes "cannot execute on dead thread")
      else if lua.is_suspended t.vm
      then error_of failed_precondition (codes "cannot execute on yielded thread")
      else fine tt

  module _ {E : Type 0} (handler : Call → E → Reply × E) where
    unfoldable pub resume : ℕ → Thread V → E → StatusOr ExecutionState × Thread V × E
    unfolding run finish
    resume n t e =
        if t.is_finished
        then (error_of failed_precondition (codes "cannot resume dead thread"), t, e)
        else if ltb (lua.get_top t.vm) n
        then (error_of invalid_argument (codes "not enough arguments on stack to resume"), t, e)
        else if not (lua.is_suspended t.vm) && n == lua.get_top t.vm
        then (error_of invalid_argument (codes "not enough arguments on stack to resume"), t, e)
        else if t.is_running
        then (error_of failed_precondition (codes "cannot resume a running thread"), t, e)
        else let ((code, v), e') = run handler (lua.resume n t.vm) e in
          let (r, t') = finish code v in (r, t', e')

    -- The fold of `push_arg` over the arguments stops at the first failure.
    unfoldable pub push_args : List Argument → V → StatusOr Unit × V
    push_args [] v = (fine tt, v)
    push_args (a ∷ args) v =
        let (problem, v') = lua.push a v in
        elim problem [
          | some message ↦ (error_of internal (codes "Failed to push argument: " ++ message), v')
          | none ↦ push_args args v'
        ]

    -- On an early return `StackRestore` puts the top of the stack back.
    unfoldable pub execute_function_impl :
        Text → List Argument → Thread V → E → StatusOr ExecutionState × Thread V × E
    unfolding resume push_args
    execute_function_impl name args t e =
        let v = lua.get_global name t.vm in
        if lua.is_function v
        then (let (pushed, v') = push_args args v in
            elim pushed [
              | failed status ↦
                  (failed status, record t { vm = lua.set_top (lua.get_top t.vm) v' }, e)
              | fine _ ↦ resume (length args) (record t { vm = v' }) e
            ])
        else (
          error_of not_found (codes "could not find " ++ name ++ codes " as a global function"),
          record t { vm = lua.set_top (lua.get_top t.vm) v },
          e,
        )

    unfoldable pub execute_function :
        Text → List Argument → Thread V → E → StatusOr ExecutionState × Thread V × E
    unfolding can_execute_function execute_function_impl
    execute_function name args t e = elim (can_execute_function t) [
      | failed status ↦ (failed status, t, e)
      | fine _ ↦ execute_function_impl name args t e
    ]
