-- ===== src/Samples/OverwriteHeader.antt =====
-- plugins/samples/overwrite_header/plugin.cc: a request header is replaced if it is there, a
-- response header in any case. `none` as a result is a missing header, which the code would
-- dereference.
use service_extensions_sampl.Base.{Text, Option, none, some, [], ◌∷◌, ◌++◌, if◌then◌else◌, codes}
use service_extensions_sampl.Wasm.{
  HeaderMapType, request_headers, response_headers, FilterHeadersStatus, continue, error,
}
use service_extensions_sampl.Sdk.{Sdk, Act, is_ok}

module _ {S : Type 0} (sdk : Sdk S) where
  -- A header becomes `changed`, with a log line on failure.
  unfoldable pub change : HeaderMapType → Text → S → S
  change t key s =
      let (r, s') = sdk.replace_header t key (codes "changed") s in
      if is_ok r then s' else sdk.log error (codes "Failed to replace " ++ key) s'

  -- `onRequestHeaders`
  unfoldable pub on_request_headers : S → Option (FilterHeadersStatus × S)
  unfolding change
  on_request_headers s = elim (sdk.get_header request_headers (codes "RequestHeader") s) [
    | none ↦ none
    | some [] ↦ some (continue, s)
    | some (c ∷ t) ↦ some (continue, change request_headers (codes "RequestHeader") s)
  ]

  -- `onResponseHeaders`
  unfoldable pub on_response_headers : Act S FilterHeadersStatus
  unfolding change
  on_response_headers s = (continue, change response_headers (codes "ResponseHeader") s)
