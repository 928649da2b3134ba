-- ===== src/Samples/Redirect.antt =====
-- plugins/samples/redirect/plugin.cc: one path prefix is redirected to another.
use service_extensions_sampl.Base.{
  Text, none, some, [], ◌∷◌, ◌++◌, if◌then◌else◌, length, drop, codes, is_prefix,
}
use service_extensions_sampl.Wasm.{
  request_headers, FilterHeadersStatus, continue, continue_and_end_stream, error,
}
use service_extensions_sampl.Sdk.{Sdk, Act}

abbrev pub old_path_prefix : Text
old_path_prefix = codes "/foo/"

abbrev pub new_path_prefix : Text
new_path_prefix = codes "/bar/"

module _ {S : Type 0} (sdk : Sdk S) where
  -- `onRequestHeaders`
  unfoldable pub on_request_headers : Act S FilterHeadersStatus
  on_request_headers s = elim (sdk.get_header request_headers (codes ":path") s) [
    | none ↦ (continue, sdk.log error (codes "Failed to get :path header") s)
    | some path ↦
        if is_prefix old_path_prefix path
        then (let new_path = new_path_prefix ++ drop (length old_path_prefix) path in
            (
              continue_and_end_stream,
              sdk.send_local_response 301 [] (codes "Content moved to " ++ new_path)
                  ((codes "Location", new_path) ∷ []) s,
            ))
        else (continue, s)
  ]
