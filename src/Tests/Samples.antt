-- ===== src/Tests/Samples.antt =====
-- The theorems about plugins/samples at inputs that meet their hypotheses.
use service_extensions_sampl.Base.{
  Text, ◌≡◌, refl, true, false, some, List, [], ◌∷◌, arith, codes, text_eq, find,
}
use service_extensions_sampl.Samples.ConfigDenylist
use service_extensions_sampl.Samples.ConfigDenylist.Decision.{denylist_decides, is_continue}
use service_extensions_sampl.Samples.ConfigDenylist.Words.{words}
use service_extensions_sampl.Samples.SetCookie
use service_extensions_sampl.Samples.SetCookie.Session.{stored-IsSessionId, IsSessionId}
use service_extensions_sampl.Samples.RedirectBulk
use service_extensions_sampl.Samples.RedirectBulk.Table.{redirects_by_last_line, redirected}
use service_extensions_sampl.Tests.Host.{Fake, fake, request, split_on, split_first}

-- A request with the user token `b`, under the configuration `a b`.
abbrev denied : Fake
denied = request ((codes "User-Token", codes "b") ∷ []) (codes "a b")

denylist_decides_example :
    (tokens : List Text) × (s : Fake) × (ConfigDenylist.on_configure fake (λ n. []) 3 denied
      ≡ some (tokens, s))
    × (is_continue (ConfigDenylist.on_request_headers fake tokens denied).0 ≡ false)
    × (is_continue (ConfigDenylist.on_request_headers fake tokens denied).0 ≡ true
        → (ConfigDenylist.on_request_headers fake tokens denied).1 ≡ denied)
unfolding codes text_eq words ConfigDenylist.is_delimiter
denylist_decides_example = denylist_decides fake (λ n. []) 3 (codes "a b") denied denied refl

abbrev cookie_strings : SetCookie.Strings
cookie_strings = record {
  str_split_text = λ t d. t ∷ [];
  str_split_once = split_first;
  show = λ n. codes "42";
  show_result = λ r. [];
}

abbrev returning : Fake
returning = request ((codes "Cookie", codes "my_cookie=42") ∷ []) []

returned_id : IsSessionId (codes "42")
unfolding codes SetCookie.is_alnum
returned_id = record { min = omega arith; max = omega arith; alnum = (refl, (refl, tt)) }

stored-IsSessionId_example : IsSessionId (codes "42")
unfolding codes text_eq SetCookie.is_alnum SetCookie.on_request_headers
    SetCookie.get_session_id_from_cookie SetCookie.search_cookies SetCookie.take_session_id
    SetCookie.is_valid_session_id SetCookie.check_characters
stored-IsSessionId_example = stored-IsSessionId cookie_strings fake returning (codes "42") refl

abbrev domain_strings : RedirectBulk.Strings
domain_strings = record {
  str_split = split_on;
  strip_ascii_whitespace = λ t. t;
  ascii_str_to_lower = λ t. t;
  show = λ n. [];
}

-- The domain `a` has two lines.
abbrev moved : Fake
moved = request ((codes ":authority", codes "a:80") ∷ []) (codes "a b\nc d\na e")

redirects_by_last_line_example :
    RedirectBulk.on_request_headers domain_strings fake
      (RedirectBulk.on_configure domain_strings fake 11 moved).0
      moved
    ≡ redirected fake moved (some (codes "e"))
unfolding codes text_eq find RedirectBulk.is_skipped
redirects_by_last_line_example =
    redirects_by_last_line domain_strings fake 11 b'a' (codes " b\nc d\na e") (codes "a:80") moved
      moved refl refl
