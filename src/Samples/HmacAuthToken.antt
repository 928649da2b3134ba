-- ===== src/Samples/HmacAuthToken.antt =====
-- plugins/samples/hmac_authtoken/plugin.cc: the path of a request must carry its own signature.
-- `none` as a result is a missing path, which the code would dereference.
pub mod Stripping
use service_extensions_sampl.Base.{
  Text, not, Option, none, some, [], ◌++◌, if◌then◌else◌, codes, text_eq,
}
use service_extensions_sampl.Wasm.{
  request_headers, FilterHeadersStatus, continue, continue_and_end_stream, info, error,
}
use service_extensions_sampl.Sdk.{Sdk, Act}
use service_extensions_sampl.Urls.{Urls}

pub record Libraries : Type 0 where
  pub hmac_sha256 : Text → Text → Text
  pub bytes_to_hex_string : Text → Text

abbrev pub secret_key : Text
secret_key = codes "your_secret_key"

-- `computeHmacSignature`
unfoldable pub compute_hmac_signature : Libraries → Text → Text
compute_hmac_signature lib message = lib.bytes_to_hex_string (lib.hmac_sha256 secret_key message)

module _ {U : Type 0} (urls : Urls U) (lib : Libraries) {S : Type 0} (sdk : Sdk S) where
  abbrev forbid : Text → Act S FilterHeadersStatus
  forbid message s = (
    continue_and_end_stream,
    sdk.send_local_response 403 [] (message ++ codes "\n") [] (sdk.log info message s),
  )

  -- The part of `onRequestHeaders` after the URL is parsed.
  unfoldable pub check_url : U → Act S FilterHeadersStatus
  check_url url s = elim (urls.find_param url (codes "token")) [
    | none ↦ forbid (codes "Access forbidden - missing token.") s
    | some token ↦
        let path = urls.buffer (urls.erase_found url (codes "token")) in
        if not (text_eq (compute_hmac_signature lib path) token)
        then forbid (codes "Access forbidden - invalid token.") s
        else (continue, (sdk.replace_header request_headers (codes ":path") path s).1)
  ]

  -- `onRequestHeaders`
  unfoldable pub on_request_headers : S → Option (FilterHeadersStatus × S)
  on_request_headers s = elim (sdk.get_header request_headers (codes ":path") s) [
    | none ↦ none
    | some text ↦ elim (urls.parse_relative_ref text) [
      | none ↦ some (
        continue_and_end_stream,
        sdk.send_local_response 400 [] (codes "Error parsing the :path HTTP header.\n") [] (
            sdk.log error (codes "Error parsing the :path HTTP header: " ++ urls.error_message text)
              s),
      )
      | some url ↦ some (check_url url s)
    ]
  ]
