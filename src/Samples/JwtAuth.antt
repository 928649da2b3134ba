-- ===== src/Samples/JwtAuth.antt =====
-- plugins/samples/jwt_auth/plugin.cc: the path of a request must carry a JSON web token that the
-- configured key verifies. The token library is a parameter. `none` as a result of the request is
-- a path that is no URL, whose parameters the code would read all the same.
pub mod Verified
use service_extensions_sampl.Base.{
  Text, ℕ, Bool, not, Option, none, some, [], ◌∷◌, ◌++◌, if◌then◌else◌, codes,
}
use service_extensions_sampl.Wasm.{
  request_headers, plugin_configuration, FilterHeadersStatus, continue, continue_and_end_stream,
  info,
}
use service_extensions_sampl.Sdk.{Sdk, Act}
use service_extensions_sampl.Urls.{Urls}

-- `google::jwt_verify`: keys from a PEM text, whether they are good, tokens, and the check.
pub record Verifier (J K : Type 0) : Type 0 where
  pub create_from : Text → K
  pub is_key_ok : K → Bool
  pub parse_from_string : Text → Option J
  pub is_verified : J → K → Bool

module _ {U J K : Type 0} (urls : Urls U) (jwt : Verifier J K) {S : Type 0} (sdk : Sdk S) where
  -- `onConfigure`: the keys, and whether they are good; `none` for a null buffer, which the code
  -- would dereference.
  unfoldable pub on_configure : ℕ → S → Option (K × Bool)
  on_configure config_len s = elim (sdk.get_buffer_bytes plugin_configuration 0 config_len s) [
    | none ↦ none
    | some rsa_key ↦ let jwks = jwt.create_from rsa_key in some (jwks, jwt.is_key_ok jwks)
  ]

  abbrev forbid : Text → Act S FilterHeadersStatus
  forbid message s = (
    continue_and_end_stream,
    sdk.send_local_response 403 [] (message ++ codes "\n") [] (sdk.log info message s),
  )

  -- The part of `onRequestHeaders` after the URL is parsed.
  unfoldable pub check_url : K → U → Act S FilterHeadersStatus
  check_url jwks url s = elim (urls.find_param url (codes "jwt")) [
    | none ↦ forbid (codes "Access forbidden - missing token.") s
    | some text ↦ elim (jwt.parse_from_string text) [
      | none ↦ forbid (codes "Access forbidden - invalid token.") s
      | some token ↦
          if not (jwt.is_verified token jwks) then forbid (codes "Access forbidden.") s else (
            continue,
            (sdk.replace_header request_headers (codes ":path")
                (urls.buffer (urls.erase_found url (codes "jwt"))) s).1,
          )
    ]
  ]

  -- `onRequestHeaders`
  unfoldable pub on_request_headers : K → S → Option (FilterHeadersStatus × S)
  on_request_headers jwks s = elim (sdk.get_header request_headers (codes ":path") s) [
    | none ↦ some (continue, s)
    | some [] ↦ some (continue, s)
    | some (c ∷ path) ↦ elim (urls.parse_uri_reference (c ∷ path)) [
      | none ↦ none
      | some url ↦ some (check_url jwks url s)
    ]
  ]
