-- ===== src/Samples/LogQuery.antt =====
-- plugins/samples/log_query/plugin.cc: a query parameter is logged.
use service_extensions_sampl.Base.{Text, none, some, ◌++◌, codes}
use service_extensions_sampl.Urls.{Urls}
use service_extensions_sampl.Wasm.{request_headers, FilterHeadersStatus, continue, info}
use service_extensions_sampl.Sdk.{Sdk, Act}

module _ {U : Type 0} (urls : Urls U) {S : Type 0} (sdk : Sdk S) where
  -- `token`
  unfoldable pub token_of : Text → Text
  token_of path = elim (urls.parse_uri_reference path) [
    | none ↦ codes "<missing>"
    | some url ↦ elim (urls.find_param url (codes "token")) [
      | none ↦ codes "<missing>"
      | some token ↦ token
    ]
  ]

  -- `onRequestHeaders`
  unfoldable pub on_request_headers : Act S FilterHeadersStatus
  unfolding token_of
  on_request_headers s = elim (sdk.get_header request_headers (codes ":path") s) [
    | none ↦ (continue, s)
    | some path ↦ (continue, sdk.log info (codes "token: " ++ token_of path) s)
  ]
