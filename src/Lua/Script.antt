-- ===== src/Lua/Script.antt =====
-- plugins/samples/lua/stream_state_interface.h, lua_state.h and envoy_lua_api.h: the types that the
-- coroutine, the thread and the script share. The Lua interpreter and LuaBridge are not in the
-- repository: they are the record `Lua` over an unknown `V`, a thread's `lua_State`. What a thread does
-- until `lua_resume` returns is an `Activity`: it ends, or it calls a function of the plugin and
-- goes on with the answer. So a resume that never returns is left out.
use service_extensions_sampl.Base.{Text, ℕ, Bool, Option, List}
use service_extensions_sampl.Base.Int.{ℤ}
use service_extensions_sampl.Wasm.{HeaderMapType, BufferType, WasmResult, LogLevel}
use service_extensions_sampl.Sdk.{Sdk}
use service_extensions_sampl.Lua.Status.{StatusOr}

pub data Mode : Type 0 where
  request_mode response_mode : Mode

pub data ExecutionState : Type 0 where
  exited yielded : ExecutionState

pub data YieldReason : Type 0 where
  no_reason wait_for_headers wait_for_body wait_for_body_chunks : YieldReason
  wait_for_trailers wait_for_http wait_to_start responded : YieldReason

-- `is_guarded`: whether `is_passed_on_` is set. The function that it then holds reads the flag of the
-- coroutine whose handle made the object.
pub record Header : Type 0 where
  pub type : HeaderMapType
  pub is_guarded : Bool

-- What the C++ code pushes on the stack of a thread. A `Buffer` has only its type.
pub data Argument : Type 0 where
  handle_argument nil_argument : Argument
  header_argument : Header → Argument
  buffer_argument : BufferType → Argument
  integer_argument : ℤ → Argument

-- A call of a script into the plugin: the methods of the handle that may yield, of headers, of
-- buffers, and the logger; and `print` of the Lua library. The receiver is the handle with which the
-- script was started: a script that keeps a handle in a global variable and calls it on the thread of
-- the other direction is left out.
pub data Call : Type 0 where
  asks_body asks_headers asks_trailers asks_chunk : Call
  adds replaces : Header → Text → Text → Call
  removes gets counts : Header → Text → Call
  gets_at : Header → Text → ℤ → Call
  lists : Header → Call
  measures : BufferType → Call
  reads : BufferType → ℕ → ℕ → Call
  writes : BufferType → Text → Call
  logs : LogLevel → Text → Call
  prints : Text → Call

-- What a call gives back. `yields n` is the return by `lua_yield` with `n` results.
pub data Reply : Type 0 where
  yields : ℕ → Reply
  gives_header : Header → Reply
  gives_buffer : BufferType → Reply
  gives_status : StatusOr Unit → Reply
  gives_value : StatusOr (Option Text) → Reply
  gives_number : StatusOr ℕ → Reply
  gives_pairs : StatusOr (List (Text × Text)) → Reply
  gives_bytes : StatusOr Text → Reply
  gives_nothing : Reply

-- The return codes of `lua_resume`: 0, LUA_YIELD, and any other.
pub data ReturnCode : Type 0 where
  returns_ok returns_yield returns_error : ReturnCode

pub data Activity (V : Type 0) : Type 0 where
  ends : ReturnCode → V → Activity V
  calls : Call → (Reply → Activity V) → Activity V

pub record Lua (V : Type 0) : Type 0 where
  pub get_top : V → ℕ
  pub set_top : ℕ → V → V
  pub pop : V → V
  -- `lua_status(state) == LUA_YIELD`
  pub is_suspended : V → Bool
  pub get_global : Text → V → V
  -- `lua_isfunction(state, -1)` and `lua_tolstring(state, -1)`
  pub is_function : V → Bool
  pub to_string : V → Option Text
  -- `luabridge::push`: `some` is the message of the failure.
  pub push : Argument → V → Option Text × V
  pub resume : ℕ → V → Activity V

-- The calls of the Proxy-Wasm SDK that only the Lua plugin makes, next to those of the record `Sdk`.
pub record Host (S : Type 0) : Type 0 where
  pub sdk : Sdk S
  -- The line that `print` writes on the standard output of the plugin.
  pub print : Text → S → S
  -- `toString(result)`
  pub to_text : WasmResult → Text
  -- `getHeaderMapPairs(type)`: `none` without data.
  pub get_header_map_pairs : HeaderMapType → S → Option (List (Text × Text))
  -- `proxy_get_header_map_pairs` and `proxy_get_buffer_bytes`: `none` is a null pointer.
  pub proxy_get_header_map_pairs : HeaderMapType → S → WasmResult × Option (List (Text × Text))
  pub proxy_get_buffer_bytes : BufferType → ℕ → ℕ → S → WasmResult × Option Text
  -- `getBufferStatus(type)`, with the size.
  pub get_buffer_status : BufferType → S → WasmResult × ℕ
  -- `absl::EqualsIgnoreCase`
  pub equals_ignore_case : Text → Text → Bool
