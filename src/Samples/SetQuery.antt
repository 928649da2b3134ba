-- ===== src/Samples/SetQuery.antt =====
-- plugins/samples/set_query/plugin.cc: a query parameter is set.
use service_extensions_sampl.Base.{
  Text, ℕ, not, none, some, ◌++◌, ltb, if◌then◌else◌, length, codes,
}
use service_extensions_sampl.Urls.{Urls}
use service_extensions_sampl.Wasm.{
  WasmResult, request_headers, FilterHeadersStatus, continue, debug, warn, error,
}
use service_extensions_sampl.Sdk.{Sdk, Act, is_ok}

abbrev pub max_path_length : ℕ
max_path_length = 4096

-- `show` and `show_result` are `std::to_string` of a number and of a result code; `encoded` is
-- the text `new val` in the encoding of a path.
pub record Strings : Type 0 where
  pub show : ℕ → Text
  pub show_result : WasmResult → Text
  pub encoded : Text

module _ {U : Type 0} (urls : Urls U) (lib : Strings) {S : Type 0} (sdk : Sdk S) where
  -- `onRequestHeaders` with a path that is a URL.
  unfoldable pub set_key : U → S → S
  set_key url s =
      let resource =
        urls.encoded_resource
          (urls.set_param (urls.erase_param url (codes "key")) (codes "key") lib.encoded) in
      let (r, s') = sdk.replace_header request_headers (codes ":path") resource s in
      if not (is_ok r)
      then sdk.log error (codes "Failed to replace :path header, error: " ++ lib.show_result r) s'
      else sdk.log debug (codes "Successfully updated :path to: " ++ resource) s'

  -- `onRequestHeaders`
  unfoldable pub on_request_headers : Act S FilterHeadersStatus
  unfolding set_key
  on_request_headers s = elim (sdk.get_header request_headers (codes ":path") s) [
    | none ↦ (continue, sdk.log debug (codes "No :path header found") s)
    | some path ↦
        if ltb max_path_length (length path)
        then (
          continue,
          sdk.log warn
              (codes "Path too long ("
                ++ lib.show (length path)
                ++ codes " bytes), skipping processing")
              s,
        )
        else (elim (urls.parse_uri_reference path) [
          | none ↦ (continue, sdk.log warn (codes "Failed to parse URL: " ++ path) s)
          | some url ↦ (continue, set_key url s)
        ])
  ]
