-- ===== src/Samples/AddCustomResponse.antt =====
-- plugins/samples/add_custom_response/plugin.cc: server errors are redirected to a page.
use service_extensions_sampl.Base.{
  Text, ◌/◌, Bool, false, Option, none, some, [], ◌∷◌, ◌==◌, if◌then◌else◌, codes,
}
use service_extensions_sampl.Base.Int.{ℤ, pos, negsuc}
use service_extensions_sampl.Wasm.{
  response_headers, FilterHeadersStatus, continue, continue_and_end_stream,
}
use service_extensions_sampl.Sdk.{Sdk, Act}

abbrev pub redirect_page : Text
redirect_page = codes "https://storage.googleapis.com/www.example.com/server-error.html"

-- `response_code / 100 == 5`
abbrev pub is_server_error : ℤ → Bool
is_server_error (pos n) = n / 100 == 5
is_server_error (negsuc n) = false

-- `simple_atoi` is Abseil's `SimpleAtoi` into an `int`.
module _ (simple_atoi : Text → Option ℤ) {S : Type 0} (sdk : Sdk S) where
  -- `onResponseHeaders`
  unfoldable pub on_response_headers : Act S FilterHeadersStatus
  on_response_headers s = elim (sdk.get_header response_headers (codes ":status") s) [
    | none ↦ (continue, s)
    | some status ↦ elim (simple_atoi status) [
      | none ↦ (continue, s)
      | some response_code ↦
          if is_server_error response_code
          then (
            continue_and_end_stream,
            sdk.send_local_response 302 [] []
                ((codes "Origin-Status", status) ∷ (codes "Location", redirect_page) ∷ []) s,
          )
          else (continue, s)
    ]
  ]
