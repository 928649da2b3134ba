-- ===== src/Samples/OverwriteErrcode.antt =====
-- plugins/samples/overwrite_errcode/plugin.cc: server errors become 404.
pub mod Status
use service_extensions_sampl.Base.{
  Text, ◌/◌, Bool, false, Option, none, some, ◌==◌, if◌then◌else◌, codes,
}
use service_extensions_sampl.Base.Int.{ℤ, pos, negsuc}
use service_extensions_sampl.Wasm.{response_headers, FilterHeadersStatus, continue, error}
use service_extensions_sampl.Sdk.{Sdk, Act, is_ok}

-- `response_code / 100 == 5`
abbrev pub is_server_error : ℤ → Bool
is_server_error (pos n) = n / 100 == 5
is_server_error (negsuc n) = false

-- `mapResponseCode`
abbrev pub map_response_code : ℤ → ℤ
map_response_code c = if is_server_error c then pos 404 else c

-- `simple_atoi` and `show` are Abseil's `SimpleAtoi` and `StrCat` of an `int`.
module _ (simple_atoi : Text → Option ℤ) (show : ℤ → Text) {S : Type 0} (sdk : Sdk S) where
  -- `onResponseHeaders` with a status that is a number.
  unfoldable pub overwrite : ℤ → S → S
  overwrite response_code s =
      if is_server_error response_code
      then (let (r, s') =
            sdk.replace_header response_headers (codes ":status")
              (show (map_response_code response_code)) s in
          if is_ok r then s' else sdk.log error (codes "Failed to replace :status header") s')
      else s

  -- `onResponseHeaders`
  unfoldable pub on_response_headers : Act S FilterHeadersStatus
  unfolding overwrite
  on_response_headers s = elim (sdk.get_header response_headers (codes ":status") s) [
    | none ↦ (continue, s)
    | some status ↦ elim (simple_atoi status) [
      | none ↦ (continue, s)
      | some response_code ↦ (continue, overwrite response_code s)
    ]
  ]
