-- ===== src/Samples/SetCookie.antt =====
-- plugins/samples/set_cookie/plugin.cc: a session cookie is created where a request has none.
pub mod Session
use service_extensions_sampl.Base.{
  Text, ℕ, Bool, true, false, ◌&&◌, ◌||◌, Option, none, some, List, [], ◌∷◌, ◌++◌, ltb, leb,
  if◌then◌else◌, has_value, length, is_empty, codes, text_eq,
}
use service_extensions_sampl.Wasm.{
  request_headers, response_headers, WasmResult, FilterHeadersStatus, continue, LogLevel, debug,
  info, warn, error,
}
use service_extensions_sampl.Sdk.{Sdk, Act, is_ok}

-- What the plugin calls of Abseil and of the standard library.
pub record Strings : Type 0 where
  -- `StrSplit(cookies, "; ")` and `StrSplit(pair, MaxSplits('=', 1))`
  pub str_split_text : Text → Text → List Text
  pub str_split_once : Text → ℕ → List Text
  -- `std::to_string` of a number, and of a result code as an `int`
  pub show : ℕ → Text
  pub show_result : WasmResult → Text

abbrev pub cookie_name : Text
cookie_name = codes "my_cookie"

abbrev pub max_cookie_length : ℕ
max_cookie_length = 4096

abbrev pub max_session_id_length : ℕ
max_session_id_length = 128

-- `std::isalnum` in the C locale.
unfoldable pub is_alnum : ℕ → Bool
is_alnum c = (leb b'0' c && leb c b'9') || (leb b'A' c && leb c b'Z') || (leb b'a' c && leb c b'z')

module _ (lib : Strings) {S : Type 0} (sdk : Sdk S) where
  -- A log line, then the result.
  abbrev pub logged : {A : Type 0} → LogLevel → Text → A → Act S A
  logged level message a s = (a, sdk.log level message s)

  -- The loop over the characters in `isValidSessionId`.
  unfoldable pub check_characters : Text → Act S Bool
  unfolding is_alnum
  check_characters [] s = (true, s)
  check_characters (c ∷ id) s = elim (is_alnum c) [
    | true ↦ check_characters id s
    | false ↦ logged debug (codes "Session ID contains invalid character: " ++ c ∷ []) false s
  ]

  -- `isValidSessionId`
  unfoldable pub is_valid_session_id : Text → Act S Bool
  unfolding check_characters
  is_valid_session_id session_id s =
      if is_empty session_id
      then logged debug (codes "Empty session ID rejected") false s
      else if ltb max_session_id_length (length session_id)
      then logged debug
          (codes "Session ID too long: "
            ++ lib.show (length session_id)
            ++ codes " characters (max "
            ++ lib.show max_session_id_length
            ++ codes ")")
          false s
      else check_characters session_id s

  -- The end of the search at the cookie of the plugin.
  unfoldable pub take_session_id : Text → Act S (Option Text)
  unfolding is_valid_session_id
  take_session_id id s =
      let (valid, s') =
        is_valid_session_id id (sdk.log debug (codes "Found target cookie: " ++ cookie_name) s) in
      if valid
      then logged debug (codes "Valid session ID found: " ++ id) (some id) s'
      else logged warn
          (codes "Invalid session ID format for cookie " ++ cookie_name ++ codes ": " ++ id) none s'

  -- The loop over the cookie pairs. `none` in the result is `std::nullopt`.
  unfoldable pub search_cookies : List Text → Act S (Option Text)
  unfolding take_session_id
  search_cookies [] s =
      logged debug (codes "Cookie " ++ cookie_name ++ codes " not found in request") none s
  search_cookies (sp ∷ pairs) s = elim (is_empty sp) [
    | true ↦ search_cookies pairs (sdk.log debug (codes "Empty cookie pair found, skipping") s)
    | false ↦ elim (lib.str_split_once sp b'=') [
      | name ∷ id ∷ [] ↦ elim (text_eq name cookie_name) [
        | true ↦ take_session_id id s
        | false ↦ search_cookies pairs s
      ]
      | _ ↦ search_cookies pairs (sdk.log debug (codes "Malformed cookie pair, skipping: " ++ sp) s)
    ]
  ]

  -- `getSessionIdFromCookie`
  unfoldable pub get_session_id_from_cookie : Act S (Option Text)
  unfolding search_cookies
  get_session_id_from_cookie s = elim (sdk.get_header request_headers (codes "Cookie") s) [
    | none ↦ logged debug (codes "getRequestHeader returned null pointer") none s
    | some cookies ↦
        if is_empty cookies
        then logged debug (codes "Empty Cookie header found") none s
        else if ltb max_cookie_length (length cookies)
        then logged warn
            (codes "Cookie header too large ("
              ++ lib.show (length cookies)
              ++ codes " bytes), ignoring for security")
            none s
        else search_cookies (lib.str_split_text cookies (codes "; "))
            (sdk.log debug (codes "Parsing Cookie header: " ++ cookies) s)
  ]

  -- `onRequestHeaders`, with the new value of `session_id_`.
  unfoldable pub on_request_headers : Act S (FilterHeadersStatus × Option Text)
  unfolding get_session_id_from_cookie
  on_request_headers s =
      let (session_id, s') = get_session_id_from_cookie s in
      let message =
        if has_value session_id
        then codes "Found existing session ID in request"
        else codes "No valid session ID found in request" in
      ((continue, session_id), sdk.log debug message s')

  -- `onResponseHeaders`. `random` is what `generateRandom` gives.
  unfoldable pub on_response_headers : Option Text → ℕ → Act S FilterHeadersStatus
  on_response_headers (some id) random s =
      logged info (codes "This current request is for the existing session ID: " ++ id) continue s
  on_response_headers none random s =
      let new_session_id = lib.show random in
      let (r, s') =
        sdk.add_header response_headers (codes "Set-Cookie")
          (cookie_name ++ codes "=" ++ new_session_id ++ codes "; Path=/; HttpOnly")
          (sdk.log info (codes "New session ID created for the current request: " ++ new_session_id)
            s) in
      if is_ok r
      then logged debug (codes "Successfully added Set-Cookie header") continue s'
      else logged error (codes "Failed to add Set-Cookie header. Error code: " ++ lib.show_result r)
          continue s'
