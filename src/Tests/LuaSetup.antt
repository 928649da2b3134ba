-- ===== src/Tests/LuaSetup.antt =====
-- The Lua plugin on concrete inputs: the configuration, new interpreters, the values of headers and the
-- encoding of certificates.
use service_extensions_sampl.Tests.Lua.{empty_script}
use service_extensions_sampl.Base.{
  Text, ◌≡◌, refl, some, List, [], ◌∷◌, ◌++◌, arith, length, All, codes, text_eq,
}
use service_extensions_sampl.Base.Int.{pos}
use service_extensions_sampl.Lua.Status.{fine}
use service_extensions_sampl.Lua.Api.{get_at_index, get_num_values}
use service_extensions_sampl.Lua.Api.Laws.{indexed_values, values, nth}
use service_extensions_sampl.Lua.Interpreter.{
  create, open_libraries, stub_and_register, execute_string, with_raw_getmetatable, attach_block,
  run_shims, register_envoy_api, inject_native_yield_accessors, attach_unwrappers,
}
use service_extensions_sampl.Lua.Context.{on_configure}
use service_extensions_sampl.Lua.Context.Laws.{configures-IsAllOrNothing, IsAllOrNothing}
use service_extensions_sampl.Lua.Encoding.{
  to_pem, base64_der_to_url_encoded_pem, strip_suffix, strip_prefix, pem_lines,
}
use service_extensions_sampl.Lua.Encoding.Laws.{url_decode, pem-lines, with_ends, joined, IsLine}
use service_extensions_sampl.Tests.Host.{Fake, request}
use service_extensions_sampl.Tests.Toy.{toy_host, toy_machine, script, guarded}
use service_extensions_sampl.Lua.Shims.{
  stub_script, lua51_compat_shims, status_unwrapper_function_shim,
}

abbrev configured_with : Fake
configured_with = request [] (27 ∷ 76 ∷ [])

configures-IsAllOrNothing_example :
    IsAllOrNothing toy_machine toy_host
      (λ e. e.message)
      2
      (some empty_script)
      configured_with
      (on_configure toy_machine toy_host (λ e. e.message) 2 (some empty_script, configured_with))
configures-IsAllOrNothing_example =
    configures-IsAllOrNothing toy_machine toy_host (λ e. e.message) 2 (some empty_script)
      configured_with

creates : create toy_machine [] (request [] []) ≡ (fine (script []), request [] [])
unfolding create open_libraries stub_and_register execute_string with_raw_getmetatable attach_block
    run_shims register_envoy_api inject_native_yield_accessors attach_unwrappers codes stub_script
    lua51_compat_shims status_unwrapper_function_shim
creates = refl

abbrev twice : Fake
twice = request ((codes "a", codes "1") ∷ (codes "b", codes "2") ∷ (codes "a", codes "3") ∷ []) []

indexed_values_example :
    (get_at_index toy_host guarded (codes "a") (pos 1) twice
      ≡ fine (nth (values text_eq (codes "a") twice.headers) 1))
    × (get_num_values toy_host guarded (codes "a") twice
        ≡ fine (length (values text_eq (codes "a") twice.headers)))
indexed_values_example = indexed_values toy_host guarded (codes "a") 1 twice refl

pem-lines_example :
    (ls : List Text) × (url_decode (base64_der_to_url_encoded_pem (codes ":TUlJ:"))
      ≡ (codes "-----BEGIN CERTIFICATE-----\n" ++ with_ends ls)
        ++ codes "-----END CERTIFICATE-----\n")
    × (joined ls ≡ strip_suffix (strip_prefix (codes ":TUlJ:")))
    × All IsLine ls
unfolding to_pem codes strip_suffix pem_lines
pem-lines_example = pem-lines (codes ":TUlJ:") (ground arith)
