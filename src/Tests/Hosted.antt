-- ===== src/Tests/Hosted.antt =====
-- The theorems about plugins on a lawful host, at the host of plugins/test.
use service_extensions_sampl.Base.{
  Text, String, ◌≡◌, refl, true, false, none, some, [], ◌∷◌, if◌then◌else◌, has_value, map, text_lt,
  codes, text_eq, is_prefix, find,
}
use service_extensions_sampl.Wasm.{HeaderMapType, request_headers, response_headers}
use service_extensions_sampl.Sdk.{Sdk, IsLawful}
use service_extensions_sampl.Urls.{Urls}
use service_extensions_sampl.Framework.Headers.{same_key, lookup}
use service_extensions_sampl.Framework.Stream.{
  find_property, Stream, empty_result, no_callback, get_header_map_value, replace_header_map_value,
  get_property,
}
use service_extensions_sampl.Framework.Hosted.{hosted, hosted-IsLawful, InPhase}
use service_extensions_sampl.Samples.DeviceType
use service_extensions_sampl.Samples.DeviceType.Classes.{device_header_read}
use service_extensions_sampl.Samples.GeoOrigin
use service_extensions_sampl.Samples.GeoOrigin.Forgery.{country_is_region}
use service_extensions_sampl.Samples.OverwriteErrcode
use service_extensions_sampl.Samples.OverwriteErrcode.Status.{server_errors_hidden}
use service_extensions_sampl.Samples.HmacAuthToken
use service_extensions_sampl.Samples.HmacAuthToken.Stripping.{passed_path_is_signed}
use service_extensions_sampl.Samples.JwtAuth
use service_extensions_sampl.Samples.JwtAuth.Verified.{passed_token_is_verified}
use service_extensions_sampl.Tests.Order.{caseless, caseless-IsWeakOrder, lower}
use service_extensions_sampl.Tests.Host.{to_number}

abbrev quiet : Stream
quiet = record {
  phase = none;
  result = empty_result;
  sent_local_response = false;
  body_buffer = [];
  current_callback = no_callback;
  phase_logs = [];
  logging_bytes = 0;
  logging_entries = 0;
  plugin_config = [];
  properties = [];
  torn_down = false;
}

abbrev pub with_header : HeaderMapType → String → String → Stream
with_header t k v = record quiet {
  phase = some t;
  result = record empty_result { headers = (codes k, codes v) ∷ [] };
}

abbrev pub host : Sdk Stream
host = hosted caseless (λ path. []) (λ path. path)

pub laws : IsLawful host (same_key caseless) (InPhase caseless)
laws = hosted-IsLawful caseless (λ path. []) (λ path. path) caseless-IsWeakOrder

abbrev device_libraries : DeviceType.Libraries
device_libraries = record {
  ascii_str_to_lower = λ t. map lower t;
  str_contains = λ t sub. has_value (find t sub);
}

device_header_read_example :
    host.get_header request_headers
      (codes "x-device-type")
      (DeviceType.on_request_headers device_libraries host
        (with_header request_headers "User-Agent" "iPad")).1
    ≡ some (codes "tablet")
unfolding hosted get_header_map_value lookup caseless lower text_lt codes find is_prefix
device_header_read_example =
    device_header_read device_libraries host (same_key caseless) (InPhase caseless) laws
      (with_header request_headers "User-Agent" "iPad") (codes "iPad") (codes "x-device-type")
      (refl, (tt, tt)) refl

country_is_region_example :
    host.get_header request_headers
      (codes "x-country-code")
      (GeoOrigin.on_request_headers host (with_header request_headers "X-Country-Code" "US")).1
    ≡ some []
unfolding hosted get_property find_property caseless lower text_lt codes
country_is_region_example =
    country_is_region host (same_key caseless) (InPhase caseless) laws
      (with_header request_headers "X-Country-Code" "US") (codes "x-country-code") (refl, (tt, tt))

server_errors_hidden_example :
    host.get_header response_headers
      (codes ":status")
      (OverwriteErrcode.on_response_headers to_number
        (λ n. codes "404")
        host
        (with_header response_headers ":status" "503")).1
    ≡ some (codes "404")
unfolding hosted get_header_map_value lookup caseless lower text_lt codes
server_errors_hidden_example =
    server_errors_hidden to_number (λ n. codes "404") host (same_key caseless) (InPhase caseless)
      laws (with_header response_headers ":status" "503") (codes "503") (codes ":status")
      (refl, (tt, tt)) refl

-- A link is a text, its token is always `t`, and it is all of the link.
abbrev text_urls : Urls Text
text_urls = record {
  parse_relative_ref = λ t. some t;
  parse_uri_reference = λ t. some t;
  error_message = λ t. [];
  find_param = λ u key. some (codes "t");
  erase_found = λ u key. [];
  erase_param = λ u key. [];
  set_param = λ u key v. u;
  buffer = λ u. u;
  encoded_resource = λ u. u;
}

abbrev token_libraries : HmacAuthToken.Libraries
token_libraries = record { hmac_sha256 = λ key m. codes "t"; bytes_to_hex_string = λ t. t }

passed_path_is_signed_example :
    (text : Text) × (link : Text) × (path : Text) × (host.get_header request_headers
        (codes ":path")
        (with_header request_headers ":path" "/?t")
      ≡ some text)
    × (some text ≡ some link)
    × (path ≡ [])
    × (some (codes "t") ≡ some (HmacAuthToken.compute_hmac_signature token_libraries path))
    × ((j : Text)
        → host.get_header request_headers j
            (replace_header_map_value caseless request_headers
              (codes ":path")
              []
              (with_header request_headers ":path" "/?t")).1
          ≡ (if same_key caseless j (codes ":path")
              then some path
              else host.get_header request_headers j (with_header request_headers ":path" "/?t")))
unfolding hosted get_header_map_value lookup caseless lower text_lt text_eq codes
    HmacAuthToken.on_request_headers HmacAuthToken.check_url HmacAuthToken.compute_hmac_signature
passed_path_is_signed_example =
    passed_path_is_signed text_urls token_libraries host (same_key caseless) (InPhase caseless) laws
      (with_header request_headers ":path" "/?t")
      (replace_header_map_value caseless request_headers (codes ":path") []
        (with_header request_headers ":path" "/?t")).1
      (refl, (tt, tt)) refl

-- The token is its text, and the key `k` verifies all tokens.
abbrev verifier : JwtAuth.Verifier Text Text
verifier = record {
  create_from = λ t. t;
  is_key_ok = λ k. true;
  parse_from_string = λ t. some t;
  is_verified = λ j k. text_eq k (codes "k");
}

abbrev with_token : Stream
with_token = with_header request_headers ":path" "/?t"

passed_token_is_verified_example :
    (link : Text) × (field : Text) × (token : Text) × (some (codes "/?t") ≡ some link)
    × (some (codes "t") ≡ some field)
    × (some field ≡ some token)
    × (text_eq (codes "k") (codes "k") ≡ true)
    × ((j : Text)
        → host.get_header request_headers j
            (replace_header_map_value caseless request_headers (codes ":path") [] with_token).1
          ≡ (if same_key caseless j (codes ":path")
              then some []
              else host.get_header request_headers j with_token))
unfolding hosted get_header_map_value lookup caseless lower text_lt text_eq codes
    JwtAuth.on_request_headers JwtAuth.check_url
passed_token_is_verified_example =
    passed_token_is_verified text_urls verifier host (same_key caseless) (InPhase caseless) laws
      (codes "k") b'/' (codes "?t") with_token
      (replace_header_map_value caseless request_headers (codes ":path") [] with_token).1
      (refl, (tt, tt)) refl refl
