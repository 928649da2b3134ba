-- ===== src/Lua/Context.antt =====
-- plugins/samples/lua/lua_plugin.cc: `LuaRootContext` and `LuaHttpContext`. The interpreter of the root
-- context is the field `root` of a stream while no configuration changes it. `shown` is
-- `absl::Status::ToString`.
pub mod Laws
use mathlib.Core.Option
use service_extensions_sampl.Base.{
  Text, codes, ℕ, Bool, true, false, Option, none, some, [], ◌++◌, ltb, is_empty, if◌then◌else◌,
}
use service_extensions_sampl.Wasm.{
  FilterHeadersStatus, FilterDataStatus, FilterTrailersStatus, plugin_configuration, error,
}
use service_extensions_sampl.Lua.Status.{Status, StatusOr, fine, failed}
use service_extensions_sampl.Lua.Script.{Mode, request_mode, response_mode, Host}
use service_extensions_sampl.Lua.State.{new_coroutine}
use service_extensions_sampl.Lua.Coroutine.{World}
use service_extensions_sampl.Lua.Interpreter.{Interpreter, execute_string, create, new_lua_thread}
use service_extensions_sampl.Lua.Plugin.{
  Flow, Seat, empty, taken, handle_body_event, handle_trailers_event, start_and_handle,
}

pub record HttpContext (V S : Type 0) : Type 0 where
  pub root : Option V
  pub request : Option Flow
  pub response : Option Flow
  pub outside : S

module _ {V S : Type 0} where
  -- A coroutine takes the interpreter and the host for an event, and gives them back.
  unfoldable pub seat : Option V → Option Flow → S → Seat V S
  seat (some v) (some f) s = taken f.id (record {
    self = f.self;
    thread = record { vm = v; is_finished = f.is_finished; is_running = f.is_running };
    outside = s;
  })
  seat _ _ s = empty s

  abbrev pub flow_of : ℕ → World V S → Flow
  flow_of id w = record {
    id = id;
    self = w.self;
    is_finished = w.thread.is_finished;
    is_running = w.thread.is_running;
  }

  unfoldable pub leave_request : HttpContext V S → Seat V S → HttpContext V S
  leave_request ctx (empty s) = record ctx { outside = s }
  leave_request ctx (taken id w) = record ctx {
    root = some w.thread.vm;
    request = some (flow_of id w);
    outside = w.outside;
  }

  unfoldable pub leave_response : HttpContext V S → Seat V S → HttpContext V S
  leave_response ctx (empty s) = record ctx { outside = s }
  leave_response ctx (taken id w) = record ctx {
    root = some w.thread.vm;
    response = some (flow_of id w);
    outside = w.outside;
  }

  abbrev pub after :
      {A : Type 0}
      → (Seat V S → HttpContext V S)
      → Option (A × Seat V S)
      → Option (A × HttpContext V S)
  after leave = Option.map (λ (a, seat'). (a, leave seat'))

abbrev pub no_config : Text
no_config = codes "[LuaRootContext] onConfigure: could not get config data"

module _ {V S : Type 0} (machine : Interpreter V S) (host : Host S) (shown : Status → Text) where
  -- The end of `onConfigure`, on what the script did.
  abbrev pub configured : Option V → StatusOr Unit × (V × S) → Bool × (Option V × S)
  configured root (failed e, (v, s)) = (
    false,
    (root, host.sdk.log error (codes "[LuaRootContext] onConfigure: lua error -- " ++ shown e) s),
  )
  configured root (fine _, (v, s)) = (true, (some v, s))

  -- From the test of the data on.
  abbrev pub load_config : Option V → S → V → Option Text → Bool × (Option V × S)
  load_config root s v none = (false, (root, host.sdk.log error no_config s))
  load_config root s v (some config) =
      if is_empty config
      then (false, (root, host.sdk.log error no_config s))
      else configured root (execute_string machine config (v, s))

  -- From the new interpreter on.
  abbrev pub configure_with : ℕ → Option V → StatusOr V × S → Bool × (Option V × S)
  configure_with cfg_size root (failed e, s) =
      (false, (root, host.sdk.log error (codes "[LuaRootContext] onConfigure: " ++ shown e) s))
  configure_with cfg_size root (fine v, s) =
      if ltb 0 cfg_size
      then load_config root s v (host.sdk.get_buffer_bytes plugin_configuration 0 cfg_size s)
      else (true, (some v, s))

  -- `onConfigure` of the root context: `root` is its interpreter.
  unfoldable pub on_configure : ℕ → Option V × S → Bool × (Option V × S)
  unfolding execute_string create
  on_configure cfg_size (root, s) = configure_with cfg_size root (create machine [] s)

  abbrev fresh_flow : Mode → ℕ → Flow
  fresh_flow mode id = record {
    id = id;
    self = new_coroutine mode;
    is_finished = false;
    is_running = false;
  }

  -- `NewThread` for one direction, and the coroutine on it.
  unfoldable pub create_flow : Mode → V → S → Option Flow × (V × S)
  unfolding new_lua_thread
  create_flow mode v s =
      let (made, v') = new_lua_thread machine v in
      elim made [
        | failed e ↦ (
          none,
          (
            v',
            host.sdk.log error
                (codes "[LuaHttpContext] onCreate: thread creation failed -- " ++ shown e) s,
          ),
        )
        | fine id ↦ (some (fresh_flow mode id), (v', s))
      ]

  unfoldable pub on_create : HttpContext V S → HttpContext V S
  unfolding create_flow
  on_create ctx = elim ctx.root [
    | none ↦ record ctx {
      outside =
          host.sdk.log error (codes "[LuaHttpContext] onCreate: root Lua state is null")
            ctx.outside;
    }
    | some v ↦
        let (request, (v₁, s₁)) = create_flow request_mode v ctx.outside in
        let (response, (v₂, s₂)) = create_flow response_mode v₁ s₁ in
        record { root = some v₂; request = request; response = response; outside = s₂ }
  ]

  unfoldable pub on_request_headers :
      ℕ → ℕ → Bool → HttpContext V S → Option (FilterHeadersStatus × HttpContext V S)
  on_request_headers fuel num_headers end_of_stream ctx = after (leave_request ctx) (
      start_and_handle machine host
        (λ e. codes "[LuaHttpContext] Failed to start request coroutine: " ++ shown e) fuel
        num_headers end_of_stream (seat ctx.root ctx.request ctx.outside))

  unfoldable pub on_request_body :
      ℕ → ℕ → Bool → HttpContext V S → Option (FilterDataStatus × HttpContext V S)
  on_request_body fuel body_buffer_length end_of_stream ctx = after (leave_request ctx) (
      handle_body_event machine host fuel body_buffer_length end_of_stream
        (seat ctx.root ctx.request ctx.outside))

  unfoldable pub on_request_trailers :
      ℕ → ℕ → HttpContext V S → Option (FilterTrailersStatus × HttpContext V S)
  on_request_trailers fuel num_trailers ctx =
      after (leave_request ctx) (
        handle_trailers_event machine host fuel num_trailers
          (seat ctx.root ctx.request ctx.outside))

  unfoldable pub on_response_headers :
      ℕ → ℕ → Bool → HttpContext V S → Option (FilterHeadersStatus × HttpContext V S)
  on_response_headers fuel num_headers end_of_stream ctx = after (leave_response ctx) (
      start_and_handle machine host
        (λ e. codes "[LuaHttpContext] Failed to start response coroutine: " ++ shown e) fuel
        num_headers end_of_stream (seat ctx.root ctx.response ctx.outside))

  unfoldable pub on_response_body :
      ℕ → ℕ → Bool → HttpContext V S → Option (FilterDataStatus × HttpContext V S)
  on_response_body fuel body_buffer_length end_of_stream ctx = after (leave_response ctx) (
      handle_body_event machine host fuel body_buffer_length end_of_stream
        (seat ctx.root ctx.response ctx.outside))

  unfoldable pub on_response_trailers :
      ℕ → ℕ → HttpContext V S → Option (FilterTrailersStatus × HttpContext V S)
  on_response_trailers fuel num_trailers ctx = after (leave_response ctx) (
      handle_trailers_event machine host fuel num_trailers (seat ctx.root ctx.response ctx.outside))
