-- ===== src/Samples/GeoOrigin.antt =====
-- plugins/samples/geo_directional_origin/plugin.cc: the country of the client as a header.
pub mod Forgery
use service_extensions_sampl.Base.{Text, none, some, List, [], ◌∷◌, codes}
use service_extensions_sampl.Wasm.{request_headers, FilterHeadersStatus, continue}
use service_extensions_sampl.Sdk.{Sdk, Act}

abbrev pub geo_header_key : Text
geo_header_key = codes "x-country-code"

abbrev pub region_path : List Text
region_path = codes "source" ∷ codes "client_region" ∷ []

module _ {S : Type 0} (sdk : Sdk S) where
  -- `onRequestHeaders`
  unfoldable pub on_request_headers : Act S FilterHeadersStatus
  on_request_headers s = elim (sdk.get_property region_path s) [
    | none ↦ (continue, (sdk.remove_header request_headers geo_header_key s).1)
    | some [] ↦ (continue, (sdk.remove_header request_headers geo_header_key s).1)
    | some (c ∷ country) ↦
        (continue, (sdk.replace_header request_headers geo_header_key (c ∷ country) s).1)
  ]
