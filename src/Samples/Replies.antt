-- ===== src/Samples/Replies.antt =====
-- plugins/samples/local_reply/plugin.cc, remove_cookie/plugin.cc, docs_first_plugin/plugin.cc and
-- docs_plugin_config/plugin.cc: plugins whose callbacks always do the same.
use service_extensions_sampl.Base.{Text, ℕ, Option, none, some, [], ◌∷◌, ◌++◌, if◌then◌else◌, codes}
use service_extensions_sampl.Wasm.{
  request_headers, response_headers, plugin_configuration, FilterHeadersStatus, continue,
  stop_iteration, WasmResult, info, error,
}
use service_extensions_sampl.Sdk.{Sdk, Act, is_ok}

module _ {S : Type 0} (sdk : Sdk S) where
  -- A call, with a log line on failure.
  abbrev or_log : Text → WasmResult × S → S
  or_log message (r, s) = if is_ok r then s else sdk.log error message s

  -- `onRequestHeaders` of local_reply.
  unfoldable pub hello_world : Act S FilterHeadersStatus
  hello_world s = (
    stop_iteration,
    sdk.send_local_response 200 [] (codes "Hello World")
        ((codes "Content-Type", codes "text/plain") ∷ (codes ":status", codes "200") ∷ []) s,
  )

  -- `onResponseHeaders` of remove_cookie.
  unfoldable pub remove_cookie : Act S FilterHeadersStatus
  remove_cookie s = (
    continue,
    or_log (codes "Failed to remove Set-Cookie header")
        (sdk.remove_header response_headers (codes "Set-Cookie") s),
  )

  -- `onRequestHeaders` of docs_first_plugin.
  unfoldable pub rewrite_host : Act S FilterHeadersStatus
  rewrite_host s =
      let s₁ = sdk.log info (codes "onRequestHeaders: hello from wasm") s in
      let s₂ = or_log (codes "Failed to replace :authority header") (
        sdk.replace_header request_headers (codes ":authority") (codes "service-extensions.com")
          s₁) in
      (
        continue,
        or_log (codes "Failed to replace :path header")
            (sdk.replace_header request_headers (codes ":path") (codes "/") s₂),
      )

  -- `onResponseHeaders` of docs_first_plugin.
  unfoldable pub add_hello : Act S FilterHeadersStatus
  add_hello s = (
    continue,
    or_log (codes "Failed to add response header") (
        sdk.add_header response_headers (codes "hello") (codes "service-extensions")
          (sdk.log info (codes "onResponseHeaders: hello from wasm") s)),
  )

  -- `onConfigure` of docs_plugin_config: the secret, `none` for `false`.
  unfoldable pub read_secret : ℕ → Act S (Option Text)
  read_secret config_len s = elim (sdk.get_buffer_bytes plugin_configuration 0 config_len s) [
    | none ↦ (none, sdk.log error (codes "Failed to retrieve plugin configuration") s)
    | some secret ↦ (some secret, s)
  ]

  -- `onRequestHeaders` of docs_plugin_config.
  unfoldable pub log_secret : Text → Act S FilterHeadersStatus
  log_secret secret s = (continue, sdk.log info (codes "secret: " ++ secret) s)
