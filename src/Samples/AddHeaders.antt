-- ===== src/Samples/AddHeaders.antt =====
-- plugins/samples/add_request_header/plugin.cc and add_response_header/plugin.cc.
use service_extensions_sampl.Base.{
  Text, Bool, false, Option, none, some, if◌then◌else◌, codes, text_eq,
}
use service_extensions_sampl.Wasm.{request_headers, response_headers, FilterHeadersStatus, continue}
use service_extensions_sampl.Sdk.{Sdk, Act}

module _ {S : Type 0} (sdk : Sdk S) where
  -- `onRequestHeaders` of the first plugin.
  unfoldable pub on_request_headers : Act S FilterHeadersStatus
  on_request_headers s =
      let (r, s') = sdk.add_header request_headers (codes "Message") (codes "hello") s in
      (continue, (sdk.replace_header request_headers (codes "Welcome") (codes "warm") s').1)

  -- The condition of `onResponseHeaders` of the second plugin.
  abbrev is_foo : Option Text → Bool
  is_foo none = false
  is_foo (some v) = text_eq v (codes "foo")

  -- `onResponseHeaders` of the second plugin.
  unfoldable pub on_response_headers : Act S FilterHeadersStatus
  on_response_headers s =
      let s' =
        if is_foo (sdk.get_header response_headers (codes "Message") s)
        then (sdk.add_header response_headers (codes "Message") (codes "bar") s).1
        else s in
      (continue, (sdk.remove_header response_headers (codes "Welcome") s').1)
