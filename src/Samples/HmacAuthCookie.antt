-- ===== src/Samples/HmacAuthCookie.antt =====
-- plugins/samples/hmac_authcookie/plugin.cc: requests must carry a cookie that is signed, that
-- belongs to the client's address and that has not expired. The regular expression, Abseil and
-- OpenSSL are parameters. `none` as a result is a null pointer where the code dereferences it; the
-- host of plugins/test gives an empty text for a missing header, which is answered with 403.
pub mod Decision
use service_extensions_sampl.Base.{
  Text, ℕ, Bool, false, not, Option, none, some, List, [], ◌∷◌, ◌++◌, if◌then◌else◌, is_empty,
  codes, text_eq,
}
use service_extensions_sampl.Base.Int.{ℤ, ltb_ℤ}
use service_extensions_sampl.Wasm.{
  request_headers, FilterHeadersStatus, continue, continue_and_end_stream, info,
}
use service_extensions_sampl.Sdk.{Sdk, Act}

pub record Libraries : Type 0 where
  -- Whether the expression for an address compiles, and `FullMatch` with it.
  pub is_compiled : Bool
  pub is_ip : Text → Bool
  pub str_split : Text → ℕ → List Text
  pub str_split_text : Text → Text → List Text
  -- `StrSplit` into a pair, at a separator, and with `MaxSplits('=', 1)`.
  pub split_pair : Text → Text → Text × Text
  pub split_pair_once : Text → ℕ → Text × Text
  pub base64_unescape : Text → Option Text
  pub hmac_sha256 : Text → Text → Text
  pub bytes_to_hex_string : Text → Text
  -- `SimpleAtoi` into an `int64_t`
  pub simple_atoi : Text → Option ℤ

abbrev pub secret_key : Text
secret_key = codes "your_secret_key"

-- `onConfigure`
unfoldable pub on_configure : Libraries → Bool
on_configure lib = lib.is_compiled

module _ (lib : Libraries) where
  -- `isHashTimestampValid`; `now` is the clock in nanoseconds after 1970.
  unfoldable pub is_hash_timestamp_valid : ℕ → Text → Bool
  is_hash_timestamp_valid now expiration_timestamp = elim (lib.simple_atoi expiration_timestamp) [
    | none ↦ false
    | some t ↦ not (ltb_ℤ t now)
  ]

  -- The loop of `getClientIp`.
  unfoldable pub find_ip : List Text → Option Text
  find_ip [] = none
  find_ip (ip ∷ ips) = if lib.is_ip ip then some ip else find_ip ips

  -- The loop of `getAuthorizationCookie`.
  unfoldable pub find_authorization : List Text → Option Text
  find_authorization [] = none
  find_authorization (sp ∷ cookies) =
      let (name, v) = lib.split_pair_once sp b'=' in
      if text_eq name (codes "Authorization") then some v else find_authorization cookies

  -- `parseAuthorizationCookie`
  unfoldable pub parse_authorization_cookie : Text → Option (Text × Text)
  parse_authorization_cookie cookie =
      let (payload, hash) = lib.split_pair cookie (codes ".") in
      if is_empty hash then none else (elim (lib.base64_unescape payload) [
        | none ↦ none
        | some p ↦ elim (lib.base64_unescape hash) [ none ↦ none | some h ↦ some (p, h) ]
      ])

  -- `computeHmacSignature`
  unfoldable pub compute_hmac_signature : Text → Text
  compute_hmac_signature message = lib.bytes_to_hex_string (lib.hmac_sha256 secret_key message)

  module _ {S : Type 0} (sdk : Sdk S) where
    -- A log line, the answer 403 with the line as its text, and `ContinueAndEndStream`.
    abbrev pub forbid : Text → Act S FilterHeadersStatus
    forbid message s = (
      continue_and_end_stream,
      sdk.send_local_response 403 [] (message ++ codes "\n") [] (sdk.log info message s),
    )

    -- The part of `onRequestHeaders` after the cookie is parsed.
    unfoldable pub check_payload : ℕ → Text → Text → Text → Act S FilterHeadersStatus
    check_payload now ip payload hash s =
        let (cookie_ip, expiration) = lib.split_pair payload (codes ",") in
        if not (text_eq (compute_hmac_signature payload) hash)
        then forbid (codes "Access forbidden - invalid HMAC hash.") s
        else if not (text_eq ip cookie_ip)
        then forbid (codes "Access forbidden - invalid client IP.") s
        else if not (is_hash_timestamp_valid now expiration)
        then forbid (codes "Access forbidden - hash expired.") s
        else (continue, s)

    -- The part of `onRequestHeaders` after the address is known.
    unfoldable pub check_cookies : ℕ → Text → Text → Act S FilterHeadersStatus
    check_cookies now ip cookies s =
        elim (find_authorization (lib.str_split_text cookies (codes "; "))) [
          | none ↦ forbid (codes "Access forbidden - missing HMAC cookie.") s
          | some token ↦ elim (parse_authorization_cookie token) [
            | none ↦ forbid (codes "Access forbidden - invalid HMAC cookie.") s
            | some (payload, hash) ↦ check_payload now ip payload hash s
          ]
        ]

    -- `onRequestHeaders`
    unfoldable pub on_request_headers : ℕ → S → Option (FilterHeadersStatus × S)
    on_request_headers now s = elim (sdk.get_header request_headers (codes "X-Forwarded-For") s) [
      | none ↦ none
      | some ips ↦ elim (find_ip (lib.str_split ips b',')) [
        | none ↦ some (forbid (codes "Access forbidden - missing client IP.") s)
        | some ip ↦ elim (sdk.get_header request_headers (codes "Cookie") s) [
          | none ↦ none
          | some cookies ↦ some (check_cookies now ip cookies s)
        ]
      ]
    ]
