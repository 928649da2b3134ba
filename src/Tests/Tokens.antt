-- ===== src/Tests/Tokens.antt =====
-- The theorems about the two token plugins at inputs that meet their hypotheses.
use service_extensions_sampl.Base.{
  Text, ◌+◌, ◌≤◌, ◌<◌, ◌≡◌, refl, ◌↔◌, ◌⊎◌, inl, inr, true, false, Option, none, some, [], ◌∷◌,
  ◌++◌, arith, ◌==◌, Bool-cases, Option-cases, length, codes, text_eq, is_prefix,
}
use service_extensions_sampl.Base.Int.{pos}
use service_extensions_sampl.Wasm.{continue, continue_data}
use service_extensions_sampl.Samples.CdnToken
use service_extensions_sampl.Samples.CdnToken.{CdnTokenConfig, generate_signed_url}
use service_extensions_sampl.Samples.CdnToken.Signing.{Signed}
use service_extensions_sampl.Samples.CdnToken.Limits.{IsWithinLimits, on_configure-IsWithinLimits}
use service_extensions_sampl.Samples.CdnToken.Body.{on_response_body-Signed}
use service_extensions_sampl.Samples.HmacToken
use service_extensions_sampl.Samples.HmacToken.{is_expired, compute_hmac_md5}
use service_extensions_sampl.Samples.HmacToken.Window.{is_expired_window}
use service_extensions_sampl.Samples.HmacToken.Decision.{
  IsAuthentic, passes_iff_authentic, token_moves_to_prefix,
}
use service_extensions_sampl.Tests.Host.{Fake, fake, request, split_first, to_number}

-- A finder that takes every byte `u` for a URL.
abbrev find_u : Text → Option (Text × Text × Text)
find_u [] = none
find_u (c ∷ s) = elim (c == b'u') [
  | true ↦ some ([], c ∷ [], s)
  | false ↦ elim (find_u s) [
    | none ↦ none
    | some (before, match, rest) ↦ some (c ∷ before, match, rest)
  ]
]

find_u-eq :
    (input before match rest : Text)
    → find_u input ≡ some (before, match, rest)
    → (input ≡ before ++ (match ++ rest)) × (0 < length match)
find_u-eq [] before match rest h = absurd (cc h)
find_u-eq (c ∷ s) before match rest h = elim (Bool-cases (c == b'u')) [
  | inl e ↦ ground arith
  | inr e ↦ elim (Option-cases (find_u s)) [
    | inl g ↦ absurd (ground arith)
    | inr ((b, m, r), g) ↦ ground (arith, find_u-eq s b m r g)
  ]
]

abbrev config : CdnTokenConfig
config = record {
  private_key_hex = codes "0123456789abcdef0123456789abcdef";
  key_name = codes "k";
  expiry_seconds = pos 0;
}

abbrev cdn_libraries : CdnToken.Libraries
cdn_libraries = record {
  parse_text_proto = λ t. some config;
  find_and_consume = find_u;
  pattern_ok = true;
  pattern_error = [];
  hex_string_to_bytes = λ t. some t;
  bytes_to_hex_string = λ t. t;
  web_safe_base64_escape = λ t. t;
  hmac_sha256 = λ key message. key;
  show = λ n. [];
}

abbrev cdn_root : CdnToken.Root
cdn_root = record {
  config = record config { expiry_seconds = pos 3600 };
  decoded_key = codes "0123456789abcdef0123456789abcdef";
}

on_configure-IsWithinLimits_example : IsWithinLimits cdn_libraries cdn_root
unfolding codes CdnToken.on_configure CdnToken.parse_config
on_configure-IsWithinLimits_example =
    on_configure-IsWithinLimits cdn_libraries fake 5 (request [] (codes "proto")) cdn_root refl

-- A response whose body is `aub`.
abbrev answered : Fake
answered = record (request [] []) { body = codes "aub" }

on_response_body-Signed_example :
    (out : Text) × (u : Fake) × Signed cdn_libraries
      (generate_signed_url cdn_libraries cdn_root 0)
      (codes "aub")
      out
    × (((out ≡ codes "aub")
          × (CdnToken.on_response_body cdn_libraries fake cdn_root 0 3 true answered
              ≡ some (continue_data, answered)))
        ⊎ (CdnToken.on_response_body cdn_libraries fake cdn_root 0 3 true answered
            ≡ some (continue_data, record u { body = out })))
on_response_body-Signed_example =
    on_response_body-Signed cdn_libraries fake cdn_root 0 3 (codes "aub") answered find_u-eq
      (omega arith) refl

is_expired_window_example :
    (is_expired 1000 (pos 700) ≡ false) ↔ ((700 ≤ 1000) × (1000 ≤ 700 + 300))
is_expired_window_example = (is_expired_window 1000 700 (omega arith) (omega arith)).0

-- A keyed hash that keeps its message, and texts in place of hexadecimal digits.
abbrev hmac_libraries : HmacToken.Libraries
hmac_libraries = record {
  starts_with_ignore_case = λ t p. is_prefix p t;
  str_split_once = split_first;
  simple_atoi = to_number;
  hmac_md5 = λ key message. some message;
  bytes_to_hex_string = λ t. t;
}

-- The path `/a2`, at the second 100.
abbrev signed : Fake
signed =
    request
      ((codes "authorization", codes "HMAC 10:GET/a210")
        ∷ (codes ":path", codes "/a2")
        ∷ (codes ":method", codes "GET")
        ∷ [])
      []

-- The path `/a`, at the second 300, with the same signature.
abbrev reused : Fake
reused =
    request
      ((codes "authorization", codes "HMAC 210:GET/a210")
        ∷ (codes ":path", codes "/a")
        ∷ (codes ":method", codes "GET")
        ∷ [])
      []

authentic : IsAuthentic hmac_libraries fake (codes "key") 100 signed
unfolding codes text_eq is_prefix is_expired compute_hmac_md5
authentic = record {
  auth_value = codes "HMAC 10:GET/a210";
  timestamp = codes "10";
  hmac = codes "GET/a210";
  time = pos 10;
  path = codes "/a2";
  method = codes "GET";
  has_auth = refl;
  not_empty = refl;
  has_scheme = refl;
  has_parts = refl;
  has_time = refl;
  is_fresh = refl;
  has_path = refl;
  has_method = refl;
  is_signed = refl;
  has_signature = refl;
}

passes_iff_authentic_example :
    HmacToken.on_request_headers hmac_libraries fake (codes "key") 100 signed ≡ (continue, signed)
passes_iff_authentic_example =
    (passes_iff_authentic hmac_libraries fake (codes "key") 100 signed).1 authentic

token_moves_to_prefix_example :
    HmacToken.on_request_headers hmac_libraries fake (codes "key") 300 reused ≡ (continue, reused)
unfolding codes text_eq is_prefix is_expired authentic
token_moves_to_prefix_example =
    token_moves_to_prefix hmac_libraries fake (codes "key") 100 300 signed reused authentic
      (codes "/a") (codes "2") (codes "HMAC 210:GET/a210") (pos 210) refl refl refl refl refl refl
      refl refl refl
