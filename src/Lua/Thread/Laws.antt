-- ===== src/Lua/Thread/Laws.antt =====
-- plugins/samples/lua/lua_state.cc: what a run of a thread leaves as it is, and what state it leaves a
-- thread in.
use service_extensions_sampl.Base.{Text, ℕ, ◌≡◌, Bool, true, false, List, arith, length}
use service_extensions_sampl.Lua.Status.{StatusOr, fine}
use service_extensions_sampl.Lua.Script.{
  ExecutionState, yielded, ReturnCode, returns_ok, returns_yield, returns_error, Argument, Call,
  Reply, Activity, ends, calls, Lua,
}
use service_extensions_sampl.Lua.Thread.{
  Thread, run, finish, resume, push_args, execute_function_impl, execute_function,
}

-- Every call of the activity, whatever the answers are, satisfies `Q`.
abbrev pub Only : {V : Type 0} → (Call → Type 0) → Activity V → Type 0
Only Q (ends code v) = Unit
Only Q (calls c next) = Q c × ((r : Reply) → Only Q (next r))

pub run-keeps :
    {V E : Type 0} (handler : Call → E → Reply × E) (Q : Call → Type 0) (R : E → Type 0)
    → ((c : Call) (e : E) → Q c → R e → R (handler c e).1)
    → (a : Activity V) (e : E) → Only Q a
    → R e
    → R (run handler a e).1
unfolding run
run-keeps handler Q R kept (ends code v) e q h = h
run-keeps handler Q R kept (calls c next) e q h =
    run-keeps handler Q R kept (next (handler c e).0) (handler c e).1 (q.1 (handler c e).0)
      (kept c e q.0 h)

module _ {V E : Type 0} (lua : Lua V) (handler : Call → E → Reply × E) (Q : Call → Type 0)
    (R : E → Type 0) (kept : (c : Call) (e : E) → Q c → R e → R (handler c e).1)
    (only : (n : ℕ) (v : V) → Only Q (lua.resume n v)) where
  pub resume-keeps : (n : ℕ) (t : Thread V) (e : E) → R e → R (resume lua handler n t e).2
  unfolding resume
  resume-keeps n t e h =
      ground (arith, run-keeps handler Q R kept (lua.resume n t.vm) e (only n t.vm) h)

  pub execute_function-keeps :
      (name : Text) (args : List Argument) (t : Thread V) (e : E)
      → R e
      → R (execute_function lua handler name args t e).2
  unfolding execute_function execute_function_impl
  execute_function-keeps name args t e h = ground (
    arith,
    resume-keeps (length args)
        (record t { vm = (push_args lua handler args (lua.get_global name t.vm)).1 }) e h,
  )

abbrev pub is_yielded : StatusOr ExecutionState → Bool
is_yielded (fine yielded) = true
is_yielded _ = false

-- A thread that does not run, and that is not finished if the result is that it yields.
abbrev pub IsIdle : {V : Type 0} → StatusOr ExecutionState → Thread V → Type 0
IsIdle r t = (t.is_running ≡ false) × (is_yielded r ≡ true → t.is_finished ≡ false)

finish-IsIdle :
    {V : Type 0} (lua : Lua V) (code : ReturnCode) (v : V)
    → IsIdle (finish lua code v).0 (finish lua code v).1
unfolding finish
finish-IsIdle lua returns_ok v = ground arith
finish-IsIdle lua returns_yield v = ground arith
finish-IsIdle lua returns_error v = ground arith

module _ {V E : Type 0} (lua : Lua V) (handler : Call → E → Reply × E) where
  -- After a resume the thread does not run, and if the result is that it yields, it is not finished.
  pub resume-IsIdle :
      (n : ℕ) (t : Thread V) (e : E)
      → t.is_running ≡ false
      → IsIdle (resume lua handler n t e).0 (resume lua handler n t e).1
  unfolding resume
  resume-IsIdle n t e h = ground (
    arith,
    finish-IsIdle lua (run handler (lua.resume n t.vm) e).0.0
        (run handler (lua.resume n t.vm) e).0.1,
  )

  pub execute_function-IsIdle :
      (name : Text) (args : List Argument) (t : Thread V) (e : E)
      → t.is_running ≡ false
      → IsIdle
          (execute_function lua handler name args t e).0
          (execute_function lua handler name args t e).1
  unfolding execute_function execute_function_impl
  execute_function-IsIdle name args t e h = ground (
    arith,
    resume-IsIdle (length args)
        (record t { vm = (push_args lua handler args (lua.get_global name t.vm)).1 }) e h,
  )
