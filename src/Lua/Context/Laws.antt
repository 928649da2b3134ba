-- ===== src/Lua/Context/Laws.antt =====
-- plugins/samples/lua/lua_plugin.cc: what a configuration changes.
use service_extensions_sampl.Base.{
  Text, ℕ, ◌≡◌, refl, ◌⊎◌, inl, inr, Bool, true, false, Option, none, some, [], arith, ltb,
  if-cases, is_empty,
}
use service_extensions_sampl.Wasm.{plugin_configuration, error}
use service_extensions_sampl.Lua.Status.{Status, StatusOr, fine, failed}
use service_extensions_sampl.Lua.Script.{Host}
use service_extensions_sampl.Lua.Interpreter.{Interpreter, execute_string, create}
use service_extensions_sampl.Lua.Context.{on_configure, configured, load_config, configure_with}

module _ {V S : Type 0} (machine : Interpreter V S) (host : Host S) (shown : Status → Text) where
  -- From a new interpreter `u` and the host `s` to `v` and `s'`: without a configuration nothing runs,
  -- and else the text of the configuration runs without an error.
  abbrev pub Ran : ℕ → V → S → V → S → Type 0
  Ran cfg_size u s v s' =
      ((cfg_size ≡ 0) × (v ≡ u) × (s' ≡ s))
      ⊎ ((config : Text) × (host.sdk.get_buffer_bytes plugin_configuration 0 cfg_size s
            ≡ some config)
          × (is_empty config ≡ false)
          × (execute_string machine config (u, s) ≡ (fine tt, (v, s'))))

  -- A failure keeps the root and ends with an error in the log of the host, after what a script has
  -- printed. A success has the interpreter and the host in which the configuration has run.
  abbrev pub IsAllOrNothing : ℕ → Option V → S → Bool × (Option V × S) → Type 0
  IsAllOrNothing cfg_size root s p =
      ((p.0 ≡ false) × (p.1.0 ≡ root) × ((m : Text) × (t : S) × (p.1.1 ≡ host.sdk.log error m t)))
      ⊎ ((p.0 ≡ true)
          × ((u v : V) × (t : S) × (create machine [] s ≡ (fine u, t))
              × (p.1.0 ≡ some v)
              × Ran cfg_size u t v p.1.1))

  module _ (cfg_size : ℕ) (root : Option V) (s t : S) (u : V)
      (made : create machine [] s ≡ (fine u, t)) where
    configured-IsAllOrNothing :
        (config : Text) (p : StatusOr Unit × (V × S))
        → host.sdk.get_buffer_bytes plugin_configuration 0 cfg_size t ≡ some config
        → is_empty config ≡ false
        → execute_string machine config (u, t) ≡ p
        → IsAllOrNothing cfg_size root s (configured machine host shown root p)
    configured-IsAllOrNothing config (failed e, (v, s')) g n c = inl (refl, refl, (_, _, refl))
    configured-IsAllOrNothing config (fine _, (v, s')) g n c =
        inr (refl, (u, v, t, made, refl, inr (config, g, n, c)))

    load_config-IsAllOrNothing :
        (o : Option Text)
        → host.sdk.get_buffer_bytes plugin_configuration 0 cfg_size t ≡ o
        → IsAllOrNothing cfg_size root s (load_config machine host shown root t u o)
    load_config-IsAllOrNothing none g = inl (refl, refl, (_, _, refl))
    load_config-IsAllOrNothing (some config) g =
        if-cases (IsAllOrNothing cfg_size root s) (is_empty config) _ _
          (λ e. inl (refl, refl, (_, _, refl))) (λ e. configured-IsAllOrNothing config _ g e refl)

    with_interpreter-IsAllOrNothing :
        IsAllOrNothing cfg_size root s (configure_with machine host shown cfg_size root (fine u, t))
    with_interpreter-IsAllOrNothing =
        if-cases (IsAllOrNothing cfg_size root s) (ltb 0 cfg_size) _ _
          (λ e. load_config-IsAllOrNothing _ refl)
          (λ e. inr (refl, (u, u, t, made, refl, inl (ground arith, refl, refl))))

  configure_with-IsAllOrNothing :
      (cfg_size : ℕ) (root : Option V) (s : S) (made : StatusOr V × S)
      → create machine [] s ≡ made
      → IsAllOrNothing cfg_size root s (configure_with machine host shown cfg_size root made)
  configure_with-IsAllOrNothing cfg_size root s (failed e, t) c = inl (refl, refl, (_, _, refl))
  configure_with-IsAllOrNothing cfg_size root s (fine u, t) c =
      with_interpreter-IsAllOrNothing cfg_size root s t u c

  -- A configuration that fails keeps the old interpreter, and its last call logs an error. One that
  -- succeeds has the new interpreter, in which the text of the configuration has run without an
  -- error, or nothing if its size is 0.
  pub configures-IsAllOrNothing :
      (cfg_size : ℕ) (root : Option V) (s : S)
      → IsAllOrNothing cfg_size root s (on_configure machine host shown cfg_size (root, s))
  unfolding on_configure
  configures-IsAllOrNothing cfg_size root s =
      configure_with-IsAllOrNothing cfg_size root s (create machine [] s) refl
