-- ===== src/Lua/Interpreter.antt =====
-- plugins/samples/lua/lua_state.cc: `LuaState`. `V` is a whole interpreter; its threads share it and are
-- named by numbers. The functions of the Lua library that make and load it are a record. A script that
-- is loaded can print, which reaches the host, so `S` goes through the calls that run one.
pub mod Laws
use mathlib.Core.Option
use service_extensions_sampl.Base.{
  Text, codes, ℕ, Bool, true, false, Option, none, some, List, [], ◌∷◌, ◌++◌, is_empty, ◌==◌,
  if◌then◌else◌,
}
use service_extensions_sampl.Lua.Status.{
  internal, invalid_argument, StatusOr, fine, failed, error_of,
}
use service_extensions_sampl.Lua.Script.{Lua}
use service_extensions_sampl.Lua.Shims.{
  lua51_compat_shims, status_unwrapper_function_shim, stub_script,
}
use service_extensions_sampl.Lua.Thread.{read_and_pop_lua_error}

pub record Interpreter (V S : Type 0) : Type 0 where
  -- The operations on one thread, and on the state itself.
  pub thread : ℕ → Lua V
  pub main : Lua V
  -- `luaL_newstate`, with the null pointer as `none`.
  pub new_state : Option V
  -- `luaL_loadbuffer(state, s, size, "ExecuteString") == 0` and `lua_pcall(state, 0, 0, 0) == 0`
  pub load_buffer : Text → V → Bool × V
  pub pcall : V × S → Bool × (V × S)
  -- The pushes in front of the `lua_pcall` that opens a library of this name, and that call.
  pub open_library : Text → V → Bool × V
  -- `lua_newthread` and `luaL_ref`: the number of the thread.
  pub new_thread : V → Option ℕ × V
  -- The classes that `RegisterEnvoyApi` gives to LuaBridge.
  pub register_classes : V → V
  -- The closures of `InjectNativeYieldAccessors`: `false` without a metatable.
  pub inject_accessors : V → Bool × V
  -- `lua_setglobal` of a C function, and of nil.
  pub set_function : Text → V → V
  pub set_nil : Text → V → V

-- `LUA_SIGNATURE[0]`, the escape character.
abbrev pub signature : ℕ
signature = 27

abbrev pub lua_libs : List Text
lua_libs = codes "" ∷ codes "coroutine" ∷ codes "table" ∷ codes "string" ∷ codes "math" ∷ []

abbrev pub unwrapper_classes : List Text
unwrapper_classes =
    codes "Handle"
    ∷ codes "StreamInfo"
    ∷ codes "Connection"
    ∷ codes "ConnectionStreamInfo"
    ∷ codes "Buffer"
    ∷ codes "VirtualHost"
    ∷ codes "Route"
    ∷ codes "Counter"
    ∷ codes "Gauge"
    ∷ codes "Histogram"
    ∷ codes "StatsScope"
    ∷ codes "Header"
    ∷ []

-- `!s.empty() && s[0] == LUA_SIGNATURE[0]`
abbrev pub is_bytecode : Text → Bool
is_bytecode [] = false
is_bytecode (c ∷ s) = c == signature

-- `RETURN_IF_ERROR`, then the rest. `W` is the interpreter and the host.
abbrev pub or_return :
    {W : Type 0} → StatusOr Unit × W → (W → StatusOr Unit × W) → StatusOr Unit × W
or_return (failed e, w) next = (failed e, w)
or_return (fine _, w) next = next w

module _ {V S : Type 0} (machine : Interpreter V S) where
  -- The message of the error on the stack as the result.
  abbrev pub failing : V × S → StatusOr Unit × (V × S)
  failing (v, s) = let (e, v') = read_and_pop_lua_error machine.main v in (failed e, (v', s))

  -- `lua_pcall`, unless the text could not be loaded.
  abbrev pub call_loaded : Bool × V → S → Bool × (V × S)
  call_loaded (true, v) s = machine.pcall (v, s)
  call_loaded (false, v) s = (false, (v, s))

  unfoldable pub execute_string : Text → V × S → StatusOr Unit × (V × S)
  unfolding read_and_pop_lua_error
  execute_string text (v, s) =
      if is_bytecode text
      then (error_of invalid_argument (codes "Precompiled lua bytecode is not supported"), (v, s))
      else (let (called, w) = call_loaded (machine.load_buffer text v) s in
          if called then (fine tt, w) else failing w)

  -- The loop over the libraries.
  unfoldable pub open_libraries : List Text → V × S → StatusOr Unit × (V × S)
  unfolding read_and_pop_lua_error
  open_libraries [] w = (fine tt, w)
  open_libraries (name ∷ names) (v, s) =
      let (opened, v') = machine.open_library name v in
      elim opened [
        | true ↦ open_libraries names (v', s)
        | false ↦
            let (e, v'') = read_and_pop_lua_error machine.main v' in
            (
              error_of internal
                  (codes "Could not open library " ++ name ++ codes ": " ++ e.message),
              (v'', s),
            )
      ]

  unfoldable pub inject_native_yield_accessors : V × S → StatusOr Unit × (V × S)
  inject_native_yield_accessors (v, s) =
      let (injected, v') = machine.inject_accessors v in
      (
        if injected
            then fine tt
            else error_of internal (codes "Failed to get metatable for Handle in LuaBridge"),
        (v', s),
      )

  -- The loop over the classes.
  unfoldable pub attach_unwrappers : List Text → V × S → StatusOr Unit × (V × S)
  unfolding execute_string
  attach_unwrappers [] w = (fine tt, w)
  attach_unwrappers (name ∷ names) w =
      or_return (execute_string (codes "attach_status_unwrapper('" ++ name ++ codes "')") w)
        (attach_unwrappers names)

  -- The block with the scoped function: its destructor runs on every way out.
  unfoldable pub with_raw_getmetatable :
      (V × S → StatusOr Unit × (V × S)) → V × S → StatusOr Unit × (V × S)
  with_raw_getmetatable block (v, s) =
      let (r, (v', s')) = block (machine.set_function (codes "__raw_getmetatable") v, s) in
      (r, (machine.set_nil (codes "__raw_getmetatable") v', s'))

  -- What the block does while it has the function.
  unfoldable pub attach_block : V × S → StatusOr Unit × (V × S)
  unfolding execute_string attach_unwrappers
  attach_block w =
      or_return (execute_string status_unwrapper_function_shim w)
        (attach_unwrappers unwrapper_classes)

  unfoldable pub run_shims : V × S → StatusOr Unit × (V × S)
  unfolding execute_string with_raw_getmetatable attach_block
  run_shims w = or_return (execute_string lua51_compat_shims w) (with_raw_getmetatable attach_block)

  unfoldable pub register_envoy_api : V × S → StatusOr Unit × (V × S)
  unfolding inject_native_yield_accessors run_shims
  register_envoy_api (v, s) =
      or_return (inject_native_yield_accessors (machine.register_classes v, s)) run_shims

  abbrev pub keep_state : StatusOr Unit × (V × S) → StatusOr V × S
  keep_state (failed e, (v, s)) = (failed e, s)
  keep_state (fine _, (v, s)) = (fine v, s)

  unfoldable pub stub_and_register : V × S → StatusOr Unit × (V × S)
  unfolding execute_string register_envoy_api
  stub_and_register w = or_return (execute_string stub_script w) register_envoy_api

  unfoldable pub create : List Text → S → StatusOr V × S
  unfolding open_libraries stub_and_register
  create libs_to_load s = elim machine.new_state [
    | none ↦ (error_of internal (codes "Could not create new lua state"), s)
    | some v ↦ keep_state (
        or_return (open_libraries (if is_empty libs_to_load then lua_libs else libs_to_load) (v, s))
          stub_and_register)
  ]

  unfoldable pub new_lua_thread : V → StatusOr ℕ × V
  new_lua_thread v =
      let (thread, v') = machine.new_thread v in
      elim thread [
        | none ↦ (error_of internal (codes "Could not create new thread"), v')
        | some id ↦ (fine id, v')
      ]
