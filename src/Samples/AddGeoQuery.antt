-- ===== src/Samples/AddGeoQuery.antt =====
-- plugins/samples/add_geo_query/plugin.cc: the country of the client as a query parameter.
use service_extensions_sampl.Base.{Text, Option, none, some, [], ◌∷◌, ◌++◌, codes}
use service_extensions_sampl.Urls.{Urls}
use service_extensions_sampl.Wasm.{request_headers, FilterHeadersStatus, continue, info}
use service_extensions_sampl.Sdk.{Sdk, Act}

-- `country_value`
abbrev pub country_value : Option Text → Text
country_value none = codes "unknown"
country_value (some []) = codes "unknown"
country_value (some (c ∷ t)) = c ∷ t

module _ {U : Type 0} (urls : Urls U) {S : Type 0} (sdk : Sdk S) where
  -- The second half of `onRequestHeaders`.
  unfoldable pub set_country : Text → S → S
  set_country country s = elim (sdk.get_header request_headers (codes ":path") s) [
    | none ↦ s
    | some path ↦ elim (urls.parse_uri_reference path) [
      | none ↦ s
      | some url ↦
          (sdk.replace_header request_headers (codes ":path")
            (urls.buffer (urls.set_param url (codes "country") country)) s).1
    ]
  ]

  -- `onRequestHeaders`
  unfoldable pub on_request_headers : Act S FilterHeadersStatus
  unfolding set_country
  on_request_headers s =
      let country =
        country_value (sdk.get_property (codes "request" ∷ codes "client_region" ∷ []) s) in
      (continue, set_country country (sdk.log info (codes "country: " ++ country) s))
