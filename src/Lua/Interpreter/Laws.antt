-- ===== src/Lua/Interpreter/Laws.antt =====
-- plugins/samples/lua/lua_state.cc and envoy_lua_api_registration.cc: what a new interpreter no longer
-- has, and what is never loaded.
use service_extensions_sampl.Base.{
  Text, ◌≡◌, refl, inl, inr, Bool, true, false, List, arith, if◌then◌else◌, Option-cases, is_empty,
  codes,
}
use service_extensions_sampl.Lua.Status.{
  internal, invalid_argument, StatusOr, fine, failed, error_of, is_fine,
}
use service_extensions_sampl.Lua.Shims.{lua51_compat_shims, stub_script}
use service_extensions_sampl.Lua.Interpreter.{
  Interpreter, is_bytecode, or_return, execute_string, create, register_envoy_api,
  with_raw_getmetatable, attach_block, run_shims, stub_and_register, keep_state, open_libraries,
  inject_native_yield_accessors, lua_libs,
}

module _ {V S : Type 0} (machine : Interpreter V S) where
  -- Precompiled bytecode is refused before the interpreter sees it.
  pub execute_string-bytecode :
      (s : Text) (w : V × S)
      → is_bytecode s ≡ true
      → execute_string machine s w
        ≡ (error_of invalid_argument (codes "Precompiled lua bytecode is not supported"), w)
  unfolding execute_string
  execute_string-bytecode s w e = rw e refl

  module _ (has_global : Text → V → Bool)
      (gone : (name : Text) (v : V) → has_global name (machine.set_nil name v) ≡ false) where
    -- If the first part succeeds, the second runs.
    abbrev Gone : StatusOr Unit × (V × S) → Type 0
    Gone (r, (v, s)) = is_fine r ≡ true → has_global (codes "__raw_getmetatable") v ≡ false

    or_return-Gone :
        (p : StatusOr Unit × (V × S)) (next : V × S → StatusOr Unit × (V × S))
        → ((w : V × S) → Gone (next w))
        → Gone (or_return p next)
    or_return-Gone (failed e, v) next h = λ f. cc
    or_return-Gone (fine _, w) next h = h w

    with_raw_getmetatable-Gone :
        (block : V × S → StatusOr Unit × (V × S)) (v : V × S)
        → Gone (with_raw_getmetatable machine block v)
    unfolding with_raw_getmetatable
    with_raw_getmetatable-Gone block v f = gone _ _

    run_shims-Gone : (v : V × S) → Gone (run_shims machine v)
    unfolding run_shims
    run_shims-Gone v =
        or_return-Gone (execute_string machine lua51_compat_shims v)
          (with_raw_getmetatable machine (attach_block machine))
          (with_raw_getmetatable-Gone (attach_block machine))

    register_envoy_api-Gone : (v : V × S) → Gone (register_envoy_api machine v)
    unfolding register_envoy_api
    register_envoy_api-Gone (v, s) =
        or_return-Gone (inject_native_yield_accessors machine (machine.register_classes v, s))
          (run_shims machine) run_shims-Gone

    stub_and_register-Gone : (v : V × S) → Gone (stub_and_register machine v)
    unfolding stub_and_register
    stub_and_register-Gone v =
        or_return-Gone (execute_string machine stub_script v) (register_envoy_api machine)
          register_envoy_api-Gone

    keep_state-Gone :
        (p : StatusOr Unit × (V × S)) (v : V)
        → Gone p
        → (keep_state machine p).0 ≡ fine v
        → has_global (codes "__raw_getmetatable") v ≡ false
    keep_state-Gone (failed e, (u, s)) v h q = cc
    keep_state-Gone (fine _, (u, s)) v h q = grind (arith, h refl)

    -- No interpreter that `Create` returns has the global function that reads raw metatables.
    pub created_hides_getmetatable :
        (libs_to_load : List Text) (s : S) (v : V)
        → (create machine libs_to_load s).0 ≡ fine v
        → has_global (codes "__raw_getmetatable") v ≡ false
    unfolding create
    created_hides_getmetatable libs_to_load s v e = elim (Option-cases machine.new_state) [
      | inl n ↦
          let failing : (create machine libs_to_load s).0
              ≡ error_of internal (codes "Could not create new lua state") =
            rw (create, n) refl in
          cc
      | inr (u, n) ↦
          keep_state-Gone
            (or_return
              (open_libraries machine (if is_empty libs_to_load then lua_libs else libs_to_load)
                (u, s))
              (stub_and_register machine))
            v
            (or_return-Gone
              (open_libraries machine (if is_empty libs_to_load then lua_libs else libs_to_load)
                (u, s))
              (stub_and_register machine) stub_and_register-Gone)
            (rw (create, n) at e)
    ]
