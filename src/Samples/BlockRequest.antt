-- ===== src/Samples/BlockRequest.antt =====
-- plugins/samples/block_request/plugin.cc: requests from other sites are refused.
use service_extensions_sampl.Base.{
  Text, ℕ, Bool, false, not, Option, none, some, [], ◌++◌, if◌then◌else◌, codes,
}
use service_extensions_sampl.Wasm.{
  request_headers, FilterHeadersStatus, continue, continue_and_end_stream, info,
}
use service_extensions_sampl.Sdk.{Sdk, Act}

abbrev pub allowed_referer : Text
allowed_referer = codes "safe-site.com"

-- Abseil's `StrContains` and `std::to_string`.
pub record Strings : Type 0 where
  pub str_contains : Text → Text → Bool
  pub show : ℕ → Text

-- Whether the referer is there and holds the allowed domain.
abbrev pub is_allowed : Strings → Option Text → Bool
is_allowed lib none = false
is_allowed lib (some referer) = lib.str_contains referer allowed_referer

-- `onRequestHeaders`. `random` is what `generateRandom` gives.
unfoldable pub on_request_headers : Strings → {S : Type 0} → Sdk S → ℕ → Act S FilterHeadersStatus
on_request_headers lib sdk random s =
    if not (is_allowed lib (sdk.get_header request_headers (codes "Referer") s))
    then (let message = codes "Forbidden - Request ID: " ++ lib.show random in
        (
          continue_and_end_stream,
          sdk.log info message (sdk.send_local_response 403 [] message [] s),
        ))
    else (continue, (sdk.add_header request_headers (codes "my-plugin-allowed") (codes "true") s).1)
