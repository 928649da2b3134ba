-- ===== src/Samples/CdnToken.antt =====
-- plugins/samples/cdn_token_generator/plugin.cc: URLs in a response body are replaced by URLs with
-- a token of Media CDN. Protobuf, RE2, OpenSSL and Abseil are parameters. The clock stands still
-- during a callback, as it does in the test host.
pub mod Signing
pub mod Limits
pub mod Body
use service_extensions_sampl.Base.{
  Text, ℕ, zero, suc, ◌+◌, ◌*◌, Bool, not, ◌||◌, Option, none, some, List, [], ◌∷◌, ◌++◌, ltb, ◌==◌,
  if◌then◌else◌, has_value, length, is_empty, take, codes, find,
}
use service_extensions_sampl.Base.Int.{ℤ, pos, negsuc, ltb_ℤ, gtb_ℤ, is_zero_ℤ}
use service_extensions_sampl.Wasm.{
  http_response_body, plugin_configuration, FilterDataStatus, continue_data,
  stop_iteration_and_buffer, info, warn, error,
}
use service_extensions_sampl.Sdk.{Sdk, Act}
use service_extensions_sampl.Framework.Buffer.{replace}

abbrev pub max_key_hex_length : ℕ
max_key_hex_length = 256

abbrev pub min_key_hex_length : ℕ
min_key_hex_length = 32

abbrev pub max_expiry_seconds : ℕ
max_expiry_seconds = 86400

abbrev pub min_expiry_seconds : ℕ
min_expiry_seconds = 60

abbrev pub default_expiry_seconds : ℕ
default_expiry_seconds = 3600

abbrev pub max_body_size : ℕ
max_body_size = 1024 * 1024

-- `CdnTokenConfig`
pub record CdnTokenConfig : Type 0 where
  pub private_key_hex : Text
  pub key_name : Text
  pub expiry_seconds : ℤ

-- The fields of `MyRootContext` but the pattern.
pub record Root : Type 0 where
  pub config : CdnTokenConfig
  pub decoded_key : Text

-- What the plugin calls of other libraries.
pub record Libraries : Type 0 where
  -- `TextFormat::ParseFromString`
  pub parse_text_proto : Text → Option CdnTokenConfig
  -- `RE2::FindAndConsume` with the URL pattern: what is before the match, the match, and the rest.
  pub find_and_consume : Text → Option (Text × Text × Text)
  -- Whether the URL pattern compiles.
  pub pattern_ok : Bool
  pub pattern_error : Text
  pub hex_string_to_bytes : Text → Option Text
  pub bytes_to_hex_string : Text → Text
  pub web_safe_base64_escape : Text → Text
  -- `HMAC(EVP_sha256(), key, data)`
  pub hmac_sha256 : Text → Text → Text
  -- `StrCat` of a number
  pub show : ℕ → Text

-- `set_expiry_seconds(kDefaultExpirySeconds)` if the field is 0.
abbrev pub with_default : CdnTokenConfig → CdnTokenConfig
with_default c =
    if is_zero_ℤ c.expiry_seconds
    then record c { expiry_seconds = pos default_expiry_seconds }
    else c

-- The seconds of an expiry that was accepted.
abbrev pub seconds : ℤ → ℕ
seconds (pos n) = n
seconds (negsuc n) = 0

module _ (lib : Libraries) where
  -- `parseConfig`: the fields on success, and the message of the error otherwise.
  unfoldable pub parse_config : Text → Option Root × Text
  parse_config config_str = elim (lib.parse_text_proto config_str) [
    | none ↦ (none, codes "Failed to parse configuration as TextProto")
    | some parsed ↦
        let c = with_default parsed in
        if is_empty c.private_key_hex
        then (none, codes "private_key_hex is required in configuration")
        else if is_empty c.key_name
        then (none, codes "key_name is required in configuration")
        else if ltb (length c.private_key_hex) min_key_hex_length
            || ltb max_key_hex_length (length c.private_key_hex)
        then (none, codes "private_key_hex length must be between 32 and 256")
        else if ltb_ℤ c.expiry_seconds min_expiry_seconds
            || gtb_ℤ c.expiry_seconds max_expiry_seconds
        then (none, codes "expiry_seconds must be between 60 and 86400")
        else (elim (lib.hex_string_to_bytes c.private_key_hex) [
          | none ↦ (none, codes "Failed to decode private key from hex")
          | some key ↦ (some (record { config = c; decoded_key = key }), [])
        ])
  ]

  -- `onConfigure`. The result is the root context on success, `none` for `false`.
  unfoldable pub on_configure : {S : Type 0} → Sdk S → ℕ → Act S (Option Root)
  unfolding parse_config
  on_configure sdk config_size s =
      if config_size == 0
      then (none, sdk.log error (codes "Configuration is required") s)
      else (elim (sdk.get_buffer_bytes plugin_configuration 0 config_size s) [
        | none ↦ (none, sdk.log error (codes "Failed to read plugin configuration") s)
        | some config_str ↦
            let (parsed, message) = parse_config config_str in
            elim parsed [
              | none ↦ (none, sdk.log error message s)
              | some root ↦
                  if lib.pattern_ok
                  then (
                    some root,
                    sdk.log info
                        (codes "CDN Token Generator configured: keyName="
                          ++ root.config.key_name
                          ++ codes ", expirySeconds="
                          ++ lib.show (seconds root.config.expiry_seconds))
                        s,
                  )
                  else (
                    none,
                    sdk.log error (codes "Failed to compile URL regex: " ++ lib.pattern_error) s,
                  )
            ]
      ])

  -- `base64UrlEncode`: the padding is cut off.
  unfoldable pub base64_url_encode : Text → Text
  base64_url_encode input =
      let encoded = lib.web_safe_base64_escape input in
      elim (find encoded (codes "=")) [ none ↦ encoded | some n ↦ take n encoded ]

  -- `generateSignedUrl`
  unfoldable pub generate_signed_url : Root → ℕ → Text → Text
  unfolding base64_url_encode
  generate_signed_url root now target_url =
      let string_to_sign =
        codes "URLPrefix="
        ++ base64_url_encode target_url
        ++ codes "~Expires="
        ++ lib.show (now + seconds root.config.expiry_seconds)
        ++ codes "~KeyName="
        ++ root.config.key_name in
      let hmac_hex = lib.bytes_to_hex_string (lib.hmac_sha256 root.decoded_key string_to_sign) in
      let separator = if has_value (find target_url (codes "?")) then codes "&" else codes "?" in
      target_url
      ++ (separator ++ codes "Edge-Cache-Token=" ++ string_to_sign ++ codes "~hmac=" ++ hmac_hex)

  -- The loop over the matches; `offset` is where `input` begins in the body. `none` means that the
  -- fuel ran out.
  unfoldable pub find_matches : ℕ → ℕ → Text → Option (List (ℕ × Text))
  find_matches zero offset input = none
  find_matches (suc fuel) offset input = elim (lib.find_and_consume input) [
    | none ↦ some []
    | some (before, url, rest) ↦
        elim (find_matches fuel (offset + length before + length url) rest) [
          | none ↦ none
          | some matches ↦ some ((offset + length before, url) ∷ matches)
        ]
  ]

module _ (sign : Text → Text) where
  -- The loop from `matches.rbegin()` to `matches.rend()`.
  unfoldable pub replace_from_end : Text → List (ℕ × Text) → Text
  replace_from_end body [] = body
  replace_from_end body ((start, url) ∷ matches) =
      let later = replace_from_end body matches in
      if is_empty (sign url) then later else replace later start (length url) (sign url)

-- `replacements`
abbrev pub count_replacements : (Text → Text) → List (ℕ × Text) → ℕ
count_replacements sign [] = 0
count_replacements sign ((start, url) ∷ matches) =
    if is_empty (sign url)
    then count_replacements sign matches
    else suc (count_replacements sign matches)

-- `onResponseBody`; `none` if the fuel for the matches runs out.
unfoldable pub on_response_body :
    Libraries → {S : Type 0} → Sdk S → Root → ℕ → ℕ → Bool → S → Option (FilterDataStatus × S)
unfolding generate_signed_url find_matches replace_from_end
on_response_body lib sdk root now body_buffer_length end_of_stream s =
    if not end_of_stream
    then some (stop_iteration_and_buffer, s)
    else if ltb max_body_size body_buffer_length
    then some (
      continue_data,
      sdk.log warn
          (codes "Response body too large ("
            ++ lib.show body_buffer_length
            ++ codes " bytes), skipping URL signing")
          s,
    )
    else (elim (sdk.get_buffer_bytes http_response_body 0 body_buffer_length s) [
      | none ↦ some (continue_data, sdk.log error (codes "Failed to read response body") s)
      | some body ↦ elim (find_matches lib (suc (length body)) 0 body) [
        | none ↦ none
        | some matches ↦
            let sign = generate_signed_url lib root now in
            let replacements = count_replacements sign matches in
            if replacements == 0
            then some (continue_data, s)
            else some (
              continue_data,
              (sdk.set_buffer http_response_body 0 body_buffer_length
                  (replace_from_end sign body matches)
                  (sdk.log info
                    (codes "Replaced " ++ lib.show replacements ++ codes " URLs with signed URLs")
                    s)).1,
            )
      ]
    ])
