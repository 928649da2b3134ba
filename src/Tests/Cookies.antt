-- ===== src/Tests/Cookies.antt =====
-- The theorems about cookies, trace ids and masks at inputs that meet their hypotheses.
use service_extensions_sampl.Base.{
  Text, ℕ, ◌≡◌, refl, true, none, some, List, [], ◌∷◌, codes, text_eq,
}
use service_extensions_sampl.Base.Int.{pos}
use service_extensions_sampl.Wasm.{continue}
use service_extensions_sampl.Samples.HmacAuthCookie
use service_extensions_sampl.Samples.HmacAuthCookie.Decision.{passes_iff_signed, IsSignedFor}
use service_extensions_sampl.Samples.ErrorPage
use service_extensions_sampl.Samples.CheckPii
use service_extensions_sampl.Tests.Host.{Fake, fake, request, split_on, to_number}

abbrev jar : List (Text × Text)
jar = (codes "a", codes "1") ∷ (codes "b", codes "2") ∷ (codes "a", codes "3") ∷ []

-- The pieces of a cookie are fixed: the payload is `1,99`, its signature `h`.
abbrev cookie_libraries : HmacAuthCookie.Libraries
cookie_libraries = record {
  is_compiled = true;
  is_ip = λ t. true;
  str_split = split_on;
  str_split_text = λ t d. t ∷ [];
  split_pair = λ t d. (codes "1", codes "99");
  split_pair_once = λ t d. (codes "Authorization", codes "token");
  base64_unescape = λ t. some (codes "h");
  hmac_sha256 = λ key m. codes "h";
  bytes_to_hex_string = λ t. t;
  simple_atoi = to_number;
}

abbrev visiting : Fake
visiting = request ((codes "X-Forwarded-For", codes "1") ∷ (codes "Cookie", codes "c") ∷ []) []

signed_for : IsSignedFor cookie_libraries fake 42 visiting
unfolding codes text_eq HmacAuthCookie.find_ip HmacAuthCookie.find_authorization
    HmacAuthCookie.parse_authorization_cookie HmacAuthCookie.compute_hmac_signature
signed_for = record {
  ips = codes "1";
  ip = codes "1";
  cookies = codes "c";
  token = codes "token";
  payload = codes "h";
  hash = codes "h";
  time = pos 99;
  has_ips = refl;
  has_ip = refl;
  has_cookies = refl;
  has_token = refl;
  has_parts = refl;
  is_signed = refl;
  is_own = refl;
  has_time = refl;
  is_fresh = refl;
}

passes_iff_signed_example :
    HmacAuthCookie.on_request_headers cookie_libraries fake 42 visiting ≡ some (continue, visiting)
passes_iff_signed_example = (passes_iff_signed cookie_libraries fake 42 visiting).1 signed_for

abbrev page_libraries : ErrorPage.Libraries
page_libraries = record {
  is_compiled = true;
  w3c_trace_id = λ t. none;
  simple_atoi = to_number;
  str_replace_all = λ t r. t;
}

abbrev traced : Fake
traced = request ((codes "x-cloud-trace-context", codes "ab/1") ∷ []) []

-- Every text that is not empty is a card number.
abbrev mask_all : Text → Text × ℕ
mask_all [] = ([], 0)
mask_all (c ∷ t) = (codes "X", 1)

abbrev matchers : CheckPii.Matchers
matchers = record {
  replace_cards = mask_all;
  replace_codes = λ t. (t, 0);
  cards_ok = true;
  codes_ok = true;
}
