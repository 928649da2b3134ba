-- ===== src/Samples/SetCookie/Session.antt =====
-- plugins/samples/set_cookie/plugin.cc: which session ids are taken from a request.
use service_extensions_sampl.Base.{
  Text, ℕ, ◌+◌, ◌≤◌, ◌<◌, ◌≡◌, refl, ap, ◌∙◌, Bool, inl, inr, true, false, some, List, [], ◌∷◌,
  ◌++◌, arith, ltb, Bool-cases, Option-cases, length, is_empty, All, codes, if-both, if◌then◌else◌,
  text_eq_iff, none, find, is_prefix, take, take-length_append, ◌==◌,
}
use mathlib.Core.Path.{subst}
use service_extensions_sampl.Wasm.{
  request_headers, response_headers, continue, debug, refused, not_found, value,
  FilterHeadersStatus,
}
use service_extensions_sampl.Sdk.{Sdk}
use service_extensions_sampl.Framework.Headers.{IsWeakOrder, same_key, joined}
use service_extensions_sampl.Framework.Stream.{
  Stream, get_header_map_value, add_header_map_value, log,
}
use service_extensions_sampl.Framework.Stream.Access.{get-change, old_value}
use service_extensions_sampl.Framework.Hosted.{hosted, text_of, InPhase}
use service_extensions_sampl.Samples.SetCookie.{
  Strings, cookie_name, is_alnum, check_characters, is_valid_session_id, take_session_id,
  search_cookies, get_session_id_from_cookie, on_request_headers, on_response_headers,
}

-- What a session id may look like.
pub record IsSessionId (id : Text) : Type 0 where
  pub min : 0 < length id
  pub max : length id ≤ 128
  pub alnum : All (λ c. is_alnum c ≡ true) id

-- The value of the cookie that carries a session id.
abbrev pub cookie_of : Text → Text
cookie_of id = cookie_name ++ (codes "=" ++ id)

length-cookie_of : (id : Text) → length (cookie_of id) ≡ 10 + length id
unfolding codes
length-cookie_of id = omega arith

cookie_of_ne : (id : Text) → is_empty (cookie_of id) ≡ false
unfolding codes
cookie_of_ne id = refl

module _ (lib : Strings) {S : Type 0} (sdk : Sdk S) where
  check_characters-All :
      (id : Text) (s : S)
      → (check_characters lib sdk id s).0 ≡ true
      → All (λ c. is_alnum c ≡ true) id
  unfolding check_characters
  check_characters-All [] s h = tt
  check_characters-All (c ∷ id) s h = (ground arith, check_characters-All id s (ground arith))

  All-check_characters :
      (id : Text) (s : S)
      → All (λ c. is_alnum c ≡ true) id
      → (check_characters lib sdk id s).0 ≡ true
  unfolding check_characters
  All-check_characters [] s h = refl
  All-check_characters (c ∷ id) s h = rw (h.0, check_characters) (All-check_characters id s h.1)

  is_valid-IsSessionId :
      (id : Text) (s : S) → (is_valid_session_id lib sdk id s).0 ≡ true → IsSessionId id
  unfolding is_valid_session_id
  is_valid-IsSessionId id s h = record {
    min = ground arith;
    max = ground arith;
    alnum = check_characters-All id s (ground arith);
  }

  IsSessionId-is_valid :
      (id : Text) (s : S) → IsSessionId id → (is_valid_session_id lib sdk id s).0 ≡ true
  unfolding is_valid_session_id
  IsSessionId-is_valid id s h = ground (arith, h.min, h.max, All-check_characters id s h.alnum)

  take_session_id-IsSessionId :
      (found id : Text) (s : S) → (take_session_id lib sdk found s).0 ≡ some id → IsSessionId id
  unfolding take_session_id
  take_session_id-IsSessionId found id s h =
      let start = sdk.log debug (codes "Found target cookie: " ++ cookie_name) s in
      elim (Bool-cases (is_valid_session_id lib sdk found start).0) [
        | inl e ↦
            subst IsSessionId (let same : found ≡ id = ground arith in same)
              (is_valid-IsSessionId found start e)
        | inr e ↦ absurd (ground arith)
      ]

  search_cookies-IsSessionId :
      (pairs : List Text) (id : Text) (s : S)
      → (search_cookies lib sdk pairs s).0 ≡ some id
      → IsSessionId id
  unfolding search_cookies
  search_cookies-IsSessionId [] id s h = absurd (cc h)
  search_cookies-IsSessionId (sp ∷ pairs) id s h =
      grind (arith, search_cookies-IsSessionId pairs id, take_session_id-IsSessionId)

  from_cookie :
      (id : Text) (s : S) → (get_session_id_from_cookie lib sdk s).0 ≡ some id → IsSessionId id
  unfolding get_session_id_from_cookie
  from_cookie id s h = elim (Option-cases (sdk.get_header request_headers (codes "Cookie") s)) [
    | inl e ↦ absurd (ground arith)
    | inr (cookies, e) ↦
        search_cookies-IsSessionId (lib.str_split_text cookies (codes "; ")) id
          (sdk.log debug (codes "Parsing Cookie header: " ++ cookies) s) (ground arith)
  ]

  -- Whatever a request sends, a session id that is taken from it has 1 to 128 bytes, each of them
  -- an ASCII letter or digit.
  pub stored-IsSessionId :
      (s : S) (id : Text) → (on_request_headers lib sdk s).0.1 ≡ some id → IsSessionId id
  unfolding on_request_headers
  stored-IsSessionId s id h = from_cookie id s h

  found_again :
      (id : Text) (s : S)
      → IsSessionId id
      → sdk.get_header request_headers (codes "Cookie") s ≡ some (cookie_of id)
      → lib.str_split_text (cookie_of id) (codes "; ") ≡ cookie_of id ∷ []
      → lib.str_split_once (cookie_of id) b'=' ≡ cookie_name ∷ id ∷ []
      → (get_session_id_from_cookie lib sdk s).0 ≡ some id
  unfolding get_session_id_from_cookie search_cookies take_session_id
  found_again id s valid sent pairs halves =
      let short : ltb 4096 (length (cookie_of id)) ≡ false =
        ground (arith, length-cookie_of id, valid.max) in
      rw
        (
          sent,
          get_session_id_from_cookie,
          cookie_of_ne id,
          short,
          pairs,
          search_cookies,
          cookie_of_ne id,
          halves,
          (text_eq_iff cookie_name cookie_name).1 refl,
          take_session_id,
        )
        (rw (IsSessionId-is_valid id _ valid) refl)

-- What Abseil documents of the two splits of the plugin: without the separator a text is one piece, and
-- a text with `=` is split at the first one.
pub record IsSplitting (lib : Strings) : Type 0 where
  pub one_piece :
      (t : Text) → find t (codes "; ") ≡ none → lib.str_split_text t (codes "; ") ≡ t ∷ []
  pub two_halves :
      (t u : Text)
      → find t (codes "=") ≡ none
      → lib.str_split_once (t ++ (codes "=" ++ u)) b'=' ≡ t ∷ u ∷ []

-- The cookie that a client keeps of a `Set-Cookie` header: the text before the first semicolon.
abbrev pub kept_by_client : Text → Text
kept_by_client t = elim (find t (b';' ∷ [])) [ none ↦ t | some n ↦ take n t ]

abbrev attributes : Text
attributes = codes "; Path=/; HttpOnly"

-- An id has no semicolon.
find-id_then :
    (id rest : Text)
    → All (λ c. is_alnum c ≡ true) id
    → find (id ++ b';' ∷ rest) (b';' ∷ []) ≡ some (length id)
unfolding find is_prefix is_alnum
find-id_then [] rest h = refl
find-id_then (c ∷ id) rest h =
    let differs : (b';' == c) ≡ false = ground (arith, h.0) in
    rw (differs, find-id_then id rest h.1) refl

find-id_none : (id : Text) → All (λ c. is_alnum c ≡ true) id → find id (codes "; ") ≡ none
unfolding find is_prefix is_alnum codes
find-id_none [] h = refl
find-id_none (c ∷ id) h =
    let differs : (b';' == c) ≡ false = ground (arith, h.0) in
    rw (differs, find-id_none id h.1) refl

find-cookie_then :
    (id : Text)
    → All (λ c. is_alnum c ≡ true) id
    → find (cookie_of id ++ attributes) (b';' ∷ []) ≡ some (length (cookie_of id))
unfolding find is_prefix codes
find-cookie_then id h = rw (find-id_then id (codes " Path=/; HttpOnly") h) refl

find-cookie_none :
    (id : Text) → All (λ c. is_alnum c ≡ true) id → find (cookie_of id) (codes "; ") ≡ none
unfolding find is_prefix codes
find-cookie_none id h = rw (find-id_none id h) refl

find-name_none : find cookie_name (codes "=") ≡ none
unfolding find is_prefix codes
find-name_none = refl

kept-cookie :
    (id : Text)
    → All (λ c. is_alnum c ≡ true) id
    → kept_by_client (cookie_of id ++ attributes) ≡ cookie_of id
kept-cookie id h =
    rw (kept_by_client, find-cookie_then id h) (take-length_append (cookie_of id) attributes)

module _ (lib : Strings) (less : Text → Text → Bool) (o : IsWeakOrder less)
    (separated : List Text → Text) (translate : Text → Text) where
  -- The header that the response gets.
  sets_cookie :
      (random : ℕ) (s : Stream)
      → InPhase less response_headers s
      → get_header_map_value less response_headers (codes "Set-Cookie") s ≡ refused not_found
      → (hosted less separated translate).get_header response_headers
          (codes "Set-Cookie")
          (on_response_headers lib (hosted less separated translate) none random s).1
        ≡ some (cookie_of (lib.show random) ++ attributes)
  unfolding on_response_headers hosted log get_header_map_value codes
  sets_cookie random s h absent =
      let key = codes "Set-Cookie" in
      let id = lib.show random in
      let v = cookie_of id ++ attributes in
      let line = codes "New session ID created for the current request: " ++ id in
      let w = (log true line s).1 in
      let a = (add_header_map_value less response_headers key v w).1 in
      let same : same_key less key key ≡ true = ground (arith, o.irrefl key) in
      let missing : get_header_map_value less response_headers key w ≡ refused not_found = absent in
      let joins : (if same_key less key key
            then value (joined v (old_value (get_header_map_value less response_headers key w)))
            else get_header_map_value less response_headers key w)
          ≡ value v =
        rw (same, missing) refl in
      let reads : get_header_map_value less response_headers key a ≡ value v =
        (get-change less o response_headers key key v w h.0 h.1).1 ∙ joins in
      if-both {A = FilterHeadersStatus × Stream}
        (λ p. some (text_of (get_header_map_value less response_headers key p.1)) ≡ some v) _ _ _
        (ap (λ x. some (text_of x)) reads) (ap (λ x. some (text_of x)) reads)

  -- On the test host, if a response has no `Set-Cookie` header yet: when the client sends back what it
  -- keeps of the header that the plugin sets, the plugin finds the session id that it has created, if
  -- that is a session id and cookies are split as Abseil documents.
  pub created_id_comes_back :
      (random : ℕ) (s u : Stream) (t : Text)
      → IsSplitting lib
      → InPhase less response_headers s
      → get_header_map_value less response_headers (codes "Set-Cookie") s ≡ refused not_found
      → IsSessionId (lib.show random)
      → let host = hosted less separated translate in
        host.get_header response_headers
            (codes "Set-Cookie")
            (on_response_headers lib host none random s).1
          ≡ some t
        → host.get_header request_headers (codes "Cookie") u ≡ some (kept_by_client t)
        → (on_request_headers lib host u).0 ≡ (continue, some (lib.show random))
  unfolding on_request_headers
  created_id_comes_back random s u t splits opened absent valid set sent =
      let id = lib.show random in
      let host = hosted less separated translate in
      let same : t ≡ cookie_of id ++ attributes =
        let q = sets_cookie random s opened absent in cc in
      let cookie : host.get_header request_headers (codes "Cookie") u ≡ some (cookie_of id) =
        sent ∙ ap (λ x. some x) (ap kept_by_client same ∙ kept-cookie id valid.alnum) in
      rw
        (found_again lib host id u valid cookie
          (splits.one_piece (cookie_of id) (find-cookie_none id valid.alnum))
          (splits.two_halves cookie_name id find-name_none))
        refl
