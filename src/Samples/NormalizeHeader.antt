-- ===== src/Samples/NormalizeHeader.antt =====
-- plugins/samples/normalize_header/plugin.cc: the class of the client's device from two headers.
use service_extensions_sampl.Base.{
  Text, Bool, false, Option, none, some, if◌then◌else◌, codes, text_eq,
}
use service_extensions_sampl.Wasm.{request_headers, FilterHeadersStatus, continue}
use service_extensions_sampl.Sdk.{Sdk, Act}

module _ (str_contains_ignore_case : Text → Text → Bool) where
  -- Whether the first header is `?1`, and whether the second one names a mobile device.
  abbrev pub is_flagged : Option Text → Bool
  is_flagged none = false
  is_flagged (some v) = text_eq v (codes "?1")

  abbrev pub is_mobile_agent : Option Text → Bool
  is_mobile_agent none = false
  is_mobile_agent (some v) = str_contains_ignore_case v (codes "mobile")

  -- `onRequestHeaders`
  unfoldable pub on_request_headers : {S : Type 0} → Sdk S → Act S FilterHeadersStatus
  on_request_headers sdk s =
      let key = codes "client-device-type" in
      if is_flagged (sdk.get_header request_headers (codes "Sec-CH-UA-Mobile") s)
      then (continue, (sdk.add_header request_headers key (codes "mobile") s).1)
      else if is_mobile_agent (sdk.get_header request_headers (codes "User-Agent") s)
      then (continue, (sdk.add_header request_headers key (codes "mobile") s).1)
      else (continue, (sdk.add_header request_headers key (codes "unknown") s).1)
