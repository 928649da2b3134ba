-- ===== src/Samples/GeoOrigin/Forgery.antt =====
-- plugins/samples/geo_directional_origin/plugin.cc: the country that the next plugin reads.
use service_extensions_sampl.Base.{
  Text, ◌≡◌, inl, inr, Bool, Option, none, some, [], ◌∷◌, if◌then◌else◌, Option-cases,
}
use service_extensions_sampl.Wasm.{HeaderMapType, request_headers}
use service_extensions_sampl.Sdk.{Sdk, IsLawful}
use service_extensions_sampl.Samples.GeoOrigin.{geo_header_key, region_path, on_request_headers}

-- The region, if there is one and it is not empty, and else the first argument.
abbrev pub region : Option Text → Option Text → Option Text
region missing none = missing
region missing (some []) = missing
region missing (some (c ∷ t)) = some (c ∷ t)

-- On a host that keeps its laws the next plugin reads the region of the load balancer as the country,
-- whatever the client sent, and without a region it reads what the SDK gives for a missing header. All
-- other headers stay.
pub country_is_region :
    {S : Type 0} (sdk : Sdk S) (same : Text → Text → Bool) (Open : HeaderMapType → S → Type 0)
    → IsLawful sdk same Open
    → (s : S) (j : Text) → Open request_headers s
    → sdk.get_header request_headers j (on_request_headers sdk s).1 ≡ (
        if same j geo_header_key
        then region sdk.missing_header (sdk.get_property region_path s)
        else sdk.get_header request_headers j s)
unfolding on_request_headers
country_is_region sdk same Open laws s j opened =
    elim (Option-cases (sdk.get_property region_path s)) [
      | inl e ↦
          rw (e, on_request_headers) (laws.get-remove request_headers j geo_header_key s opened)
      | inr ([], e) ↦
          rw (e, on_request_headers) (laws.get-remove request_headers j geo_header_key s opened)
      | inr (c ∷ t, e) ↦
          rw (e, on_request_headers)
            (laws.get-replace request_headers j geo_header_key (c ∷ t) s opened)
    ]
