-- ===== src/Samples/HmacToken.antt =====
-- plugins/samples/hmac_token_validation/plugin.cc: requests must carry a fresh HMAC token.
pub mod Window
pub mod Decision
use service_extensions_sampl.Base.{
  Text, ℕ, suc, ◌+◌, ◌-◌, ◌%◌, ◌^◌, Bool, ◌||◌, Option, none, some, List, [], ◌∷◌, ◌++◌, ltb,
  if◌then◌else◌, is_empty, drop, codes, text_eq,
}
use service_extensions_sampl.Base.Int.{ℤ, pos, negsuc}
use service_extensions_sampl.Wasm.{request_headers, FilterHeadersStatus, continue, stop_iteration}
use service_extensions_sampl.Sdk.{Sdk, Act}

-- What the plugin calls of Abseil and OpenSSL.
pub record Libraries : Type 0 where
  pub starts_with_ignore_case : Text → Text → Bool
  -- `StrSplit(token, MaxSplits(':', 1))`
  pub str_split_once : Text → ℕ → List Text
  -- `SimpleAtoi` into an `int64_t`
  pub simple_atoi : Text → Option ℤ
  -- `HMAC(EVP_md5(), key, message)`; `none` for a null result or an empty hash.
  pub hmac_md5 : Text → Text → Option Text
  pub bytes_to_hex_string : Text → Text

abbrev pub token_validity_seconds : ℕ
token_validity_seconds = 300

-- The conversion of an `int64_t` to `uint64_t`.
abbrev pub to_uint64 : ℤ → ℕ
to_uint64 (pos n) = n % 2 ^ 64
to_uint64 (negsuc n) = (2 ^ 64 - suc n) % 2 ^ 64

-- `(current_time - token_timestamp) > root_->token_validity_seconds_`, in `uint64_t`.
unfoldable pub is_expired : ℕ → ℤ → Bool
is_expired current_time token_timestamp =
    ltb token_validity_seconds ((current_time + 2 ^ 64 - to_uint64 token_timestamp) % 2 ^ 64)

module _ (lib : Libraries) where
  -- `computeHmacMd5`
  unfoldable pub compute_hmac_md5 : Text → Text → Text
  compute_hmac_md5 message key =
      if is_empty message || is_empty key then [] else (elim (lib.hmac_md5 key message) [
        | none ↦ []
        | some hash ↦ lib.bytes_to_hex_string hash
      ])

  module _ {S : Type 0} (sdk : Sdk S) where
    -- `sendLocalResponse(code, details, text, {})` and `StopIteration`.
    abbrev pub refuse : ℕ → Text → Text → Act S FilterHeadersStatus
    refuse code details text s = (stop_iteration, sdk.send_local_response code details text [] s)

    -- Steps 6 to 8 of `onRequestHeaders`: the signature.
    unfoldable pub check_signature : Text → Text → Text → Act S FilterHeadersStatus
    check_signature secret_key timestamp hmac s =
        elim (sdk.get_header request_headers (codes ":path") s) [
          | none ↦ refuse 400 [] (codes "Missing required headers") s
          | some path ↦ elim (sdk.get_header request_headers (codes ":method") s) [
            | none ↦ refuse 400 [] (codes "Missing required headers") s
            | some method ↦
                let expected = compute_hmac_md5 (method ++ (path ++ timestamp)) secret_key in
                if is_empty expected
                then refuse 500 [] (codes "Internal server error during authentication") s
                else if text_eq expected hmac
                then (continue, s)
                else refuse 403 [] (codes "Invalid HMAC") s
          ]
        ]

    -- Steps 3 to 5: the parts of the token and its age.
    unfoldable pub check_parts : Text → ℕ → List Text → Act S FilterHeadersStatus
    check_parts secret_key now (timestamp ∷ hmac ∷ []) s = elim (lib.simple_atoi timestamp) [
      | none ↦ refuse 400 [] (codes "Invalid timestamp") s
      | some t ↦
          if is_expired now t
          then refuse 403 [] (codes "Token expired") s
          else check_signature secret_key timestamp hmac s
    ]
    check_parts secret_key now _ s =
        refuse 400 [] (codes "Invalid token format: expected 'timestamp:hmac'") s

    -- `onRequestHeaders`. `now` is the clock in seconds.
    unfoldable pub on_request_headers : Text → ℕ → Act S FilterHeadersStatus
    on_request_headers secret_key now s =
        elim (sdk.get_header request_headers (codes "authorization") s) [
          | none ↦
              refuse 401 (codes "WWW-Authenticate: HMAC realm=\"api\"")
                (codes "Missing Authorization header") s
          | some auth_value ↦
              if is_empty auth_value
              then refuse 401 (codes "WWW-Authenticate: HMAC realm=\"api\"")
                  (codes "Missing Authorization header") s
              else if lib.starts_with_ignore_case auth_value (codes "HMAC ")
              then check_parts secret_key now (lib.str_split_once (drop 5 auth_value) b':') s
              else refuse 400 [] (codes "Invalid Authorization scheme. Use 'HMAC'") s
        ]
