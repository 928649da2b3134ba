-- ===== src/Tests/CookieHeaders.antt =====
-- The theorems on the cookies of a stream, on the host of plugins/test.
use mathlib.Core.Option
use service_extensions_sampl.Base.{
  Text, ◌≡◌, refl, true, false, none, some, List, [], ◌∷◌, ◌++◌, arith, codes, text_eq, find,
  is_prefix, inl, inr, Option-cases, not, is_empty, text_lt,
}
use service_extensions_sampl.Base.Int.{pos}
use service_extensions_sampl.Wasm.{continue, request_headers, response_headers}
use service_extensions_sampl.Framework.Headers.{same_key, lookup, update, insert_or_append}
use service_extensions_sampl.Framework.Stream.{
  get_header_map_value, add_header_map_value, log, send_local_response, request_headers_callback,
}
use service_extensions_sampl.Framework.Hosted.{hosted, InPhase}
use service_extensions_sampl.Samples.SetResetCookie
use service_extensions_sampl.Samples.SetResetCookie.{CookieConfig, delete}
use service_extensions_sampl.Samples.SetResetCookie.Deletion.{deletions_keep_others}
use service_extensions_sampl.Samples.HmacAuthCookie
use service_extensions_sampl.Samples.SetCookie
use service_extensions_sampl.Samples.SetCookie.Session.{
  created_id_comes_back, IsSessionId, IsSplitting,
}
use service_extensions_sampl.Tests.Host.{split_on, split_first}
use service_extensions_sampl.Tests.Order.{caseless, caseless-IsWeakOrder, lower}
use service_extensions_sampl.Tests.Hosted.{with_header, host, laws}

abbrev join_texts : List Text → Text → Text
join_texts [] d = []
join_texts (t ∷ []) d = t
join_texts (t ∷ u ∷ ts) d = t ++ (d ++ join_texts (u ∷ ts) d)

abbrev manager_libraries : SetResetCookie.Libraries
manager_libraries = record {
  parse_text_proto = λ t. none;
  str_split = split_on;
  str_split_once = split_first;
  str_join = join_texts;
  strip_ascii_whitespace = λ t. t;
  strip_leading_ascii_whitespace = λ t. t;
  equals_ignore_case = text_eq;
  show = λ n. [];
  show_ℤ = λ n. [];
  show_operation = λ o. [];
}

abbrev deletes_a : CookieConfig
deletes_a = record {
  name = codes "a";
  value = [];
  path = [];
  domain = [];
  http_only = false;
  secure = false;
  same_site_strict = false;
  max_age = pos 0;
  operation = delete;
}

abbrev jar : List (Text × Text)
jar = (codes "a", codes "1") ∷ (codes "b", codes "2") ∷ (codes "a", codes "3") ∷ []

deletions_keep_others_example :
    host.get_header request_headers
      (codes "cookie")
      (SetResetCookie.process_cookie_deletions manager_libraries host
        (deletes_a ∷ [])
        jar
        (with_header request_headers "Cookie" "a=1; b=2; a=3")).1
    ≡ some (codes "b=2")
unfolding codes text_eq caseless lower
deletions_keep_others_example =
    (deletions_keep_others manager_libraries host (same_key caseless) (InPhase caseless) laws
      (deletes_a ∷ []) jar (codes "cookie") (with_header request_headers "Cookie" "a=1; b=2; a=3")
      (refl, (tt, tt))).2

-- The split at the first `=`.
split_first-halves :
    (t u : Text) → find t (codes "=") ≡ none → split_first (t ++ (codes "=" ++ u)) b'=' ≡ t ∷ u ∷ []
unfolding find is_prefix codes
split_first-halves [] u h = refl
split_first-halves (c ∷ t) u h = elim (Option-cases (find t (codes "="))) [
  | inl e ↦ ground (arith, split_first-halves t u e)
  | inr (n, e) ↦ absurd (ground arith)
]

abbrev cookie_strings : SetCookie.Strings
cookie_strings = record {
  str_split_text = λ t d. t ∷ [];
  str_split_once = split_first;
  show = λ n. codes "42";
  show_result = λ r. [];
}

cookie_strings-IsSplitting : IsSplitting cookie_strings
cookie_strings-IsSplitting = record { one_piece = λ t h. refl; two_halves = split_first-halves }

created_id : IsSessionId (codes "42")
unfolding codes SetCookie.is_alnum
created_id = record { min = omega arith; max = omega arith; alnum = (refl, (refl, tt)) }

created_id_comes_back_example :
    (SetCookie.on_request_headers cookie_strings host
      (with_header request_headers "Cookie" "my_cookie=42")).0
    ≡ (continue, some (codes "42"))
unfolding codes hosted get_header_map_value lookup caseless lower text_lt find is_prefix
    SetCookie.on_response_headers add_header_map_value log insert_or_append update
created_id_comes_back_example =
    created_id_comes_back cookie_strings caseless caseless-IsWeakOrder (λ path. []) (λ path. path) 7
      (with_header response_headers "A" "1") (with_header request_headers "Cookie" "my_cookie=42")
      (codes "my_cookie=42; Path=/; HttpOnly") cookie_strings-IsSplitting (refl, (tt, tt)) refl
      created_id refl refl

-- A request without the header of the addresses is answered with 403, as the tests of the plugin say.
abbrev strict : HmacAuthCookie.Libraries
strict = record {
  is_compiled = true;
  is_ip = λ t. not (is_empty t);
  str_split = split_on;
  str_split_text = λ t d. t ∷ [];
  split_pair = λ t d. (t, []);
  split_pair_once = λ t d. (t, []);
  base64_unescape = λ t. none;
  hmac_sha256 = λ key m. [];
  bytes_to_hex_string = λ t. t;
  simple_atoi = λ t. none;
}

no_address_forbidden :
    Option.map
      (λ p. p.1.result.http_code)
      (HmacAuthCookie.on_request_headers strict host 42
        (record (with_header request_headers "Cookie" "a=1") {
          current_callback = request_headers_callback;
        }))
    ≡ some 403
unfolding codes hosted get_header_map_value lookup caseless lower text_lt send_local_response log
    HmacAuthCookie.on_request_headers HmacAuthCookie.find_ip
no_address_forbidden = refl
