-- ===== src/Samples/SetResetCookie.antt =====
-- plugins/samples/set_reset_cookie/plugin.cc: cookies are set, overwritten and deleted by
-- configuration.
pub mod Deletion
use service_extensions_sampl.Base.{
  Text, ℕ, Bool, true, false, not, ◌&&◌, Option, none, some, List, [], ◌∷◌, ◌++◌, ltb, ◌==◌,
  if◌then◌else◌, length, is_empty, map, any, keep, codes, text_eq, is_prefix,
}
use service_extensions_sampl.Base.Int.{ℤ, gtb_ℤ}
use service_extensions_sampl.Wasm.{
  request_headers, response_headers, plugin_configuration, FilterHeadersStatus, continue, debug,
  info, warn, error,
}
use service_extensions_sampl.Sdk.{Sdk, Act}

-- `CookieOperation`, an enumeration of cookie_config.proto.
pub data CookieOperation : Type 0 where
  unspecified set delete overwrite : CookieOperation

-- `CookieConfig`
pub record CookieConfig : Type 0 where
  pub name : Text
  pub value : Text
  pub path : Text
  pub domain : Text
  pub http_only : Bool
  pub secure : Bool
  pub same_site_strict : Bool
  pub max_age : ℤ
  pub operation : CookieOperation

-- What the plugin calls of protobuf and Abseil.
pub record Libraries : Type 0 where
  -- `TextFormat::ParseFromString`: the `cookies` field.
  pub parse_text_proto : Text → Option (List CookieConfig)
  pub str_split : Text → ℕ → List Text
  pub str_split_once : Text → ℕ → List Text
  pub str_join : List Text → Text → Text
  pub strip_ascii_whitespace : Text → Text
  pub strip_leading_ascii_whitespace : Text → Text
  pub equals_ignore_case : Text → Text → Bool
  pub show : ℕ → Text
  pub show_ℤ : ℤ → Text
  -- `static_cast<int>(operation)`
  pub show_operation : CookieOperation → Text

abbrev pub Cookies : Type 0
Cookies = List (Text × Text)

abbrev pub is_delete : CookieOperation → Bool
is_delete delete = true
is_delete _ = false

abbrev pub sets_value : CookieOperation → Bool
sets_value set = true
sets_value overwrite = true
sets_value _ = false

abbrev text_if : Bool → Text → Text
text_if b t = if b then t else []

module _ (lib : Libraries) {S : Type 0} (sdk : Sdk S) where
  -- The warning about an empty value.
  warn_empty : CookieConfig → S → S
  warn_empty c s =
      if sets_value c.operation && is_empty c.value
      then sdk.log warn
          (codes "Cookie '" ++ c.name ++ codes "' has SET/OVERWRITE operation but empty value") s
      else s

  -- The loop of `onConfigure`: the cookies that are kept.
  unfoldable pub load_cookies : List CookieConfig → Act S (List CookieConfig)
  unfolding warn_empty
  load_cookies [] s = ([], s)
  load_cookies (c ∷ cs) s = elim (is_empty c.name) [
    | true ↦
        load_cookies cs
          (sdk.log error (codes "Cookie configuration missing required 'name' field, skipping") s)
    | false ↦
        let (rest, s') = load_cookies cs (
          sdk.log debug
            (codes "Configure cookie name="
              ++ c.name
              ++ codes ", operation="
              ++ lib.show_operation c.operation)
            (warn_empty c s)) in
        (c ∷ rest, s')
  ]

  -- `onConfigure`, with `cookie_configs_`.
  unfoldable pub on_configure : ℕ → Act S (Bool × List CookieConfig)
  unfolding load_cookies
  on_configure config_size s =
      if config_size == 0
      then (
        (true, []),
        sdk.log warn (codes "Empty configuration provided, no cookies will be managed") s,
      )
      else (elim (sdk.get_buffer_bytes plugin_configuration 0 config_size s) [
        | none ↦
            ((false, []), sdk.log error (codes "Failed to retrieve configuration data buffer") s)
        | some text ↦ elim (lib.parse_text_proto text) [
          | none ↦ (
            (false, []),
            sdk.log error
                (codes
                  "Failed to parse cookie manager configuration as text protobuf. Please ensure configuration follows the text protobuf format. Example: cookies { name: \"session\" value: \"abc\" }")
                s,
          )
          | some [] ↦ (
            (true, []),
            sdk.log warn
                (codes "Configuration parsed successfully but contains no cookie definitions") s,
          )
          | some (c ∷ cs) ↦
              let (loaded, s') = load_cookies (c ∷ cs) s in
              if is_empty loaded
              then (
                (false, []),
                sdk.log error (codes "No valid cookie configurations found after validation") s',
              )
              else (
                (true, loaded),
                sdk.log info
                    (codes "Successfully loaded "
                      ++ lib.show (length loaded)
                      ++ codes " cookie configuration(s)")
                    s',
              )
        ]
      ])

  -- The loop of `parseRequestCookies`.
  unfoldable pub parse_pairs : List Text → Cookies
  parse_pairs [] = []
  parse_pairs (p ∷ pairs) =
      let rest = parse_pairs pairs in
      let stripped = lib.strip_ascii_whitespace p in
      if is_empty stripped then rest else (elim (lib.str_split_once stripped b'=') [
        | name ∷ v ∷ [] ↦ (lib.strip_ascii_whitespace name, lib.strip_ascii_whitespace v) ∷ rest
        | _ ↦ rest
      ])

  -- `parseRequestCookies`, from `request_cookies_` to its new value.
  unfoldable pub parse_request_cookies : Cookies → S → Cookies
  unfolding parse_pairs
  parse_request_cookies cookies s = elim (sdk.get_header request_headers (codes "Cookie") s) [
    | none ↦ cookies
    | some text ↦ cookies ++ parse_pairs (lib.str_split text b';')
  ]

  -- `rebuildCookieHeader`
  unfoldable pub rebuild_cookie_header : Cookies → S → S
  rebuild_cookie_header cookies s =
      if is_empty cookies
      then (sdk.remove_header request_headers (codes "Cookie") s).1
      else (sdk.replace_header request_headers (codes "Cookie")
          (lib.str_join (map (λ c. c.0 ++ codes "=" ++ c.1) cookies) (codes "; ")) s).1

  -- The loop of `processCookieDeletions`: the cookies that are left, and `modified`.
  unfoldable pub delete_cookies : List CookieConfig → Cookies → Bool → Act S (Cookies × Bool)
  delete_cookies [] cookies modified s = ((cookies, modified), s)
  delete_cookies (c ∷ configs) cookies modified s = elim (is_delete c.operation) [
    | false ↦ delete_cookies configs cookies modified s
    | true ↦
        let left = keep (λ k. not (text_eq k.0 c.name)) cookies in
        elim (ltb (length left) (length cookies)) [
          | true ↦
              delete_cookies configs left true
                (sdk.log info (codes "Marking cookie for deletion before CDN cache: " ++ c.name) s)
          | false ↦ delete_cookies configs left modified s
        ]
  ]

  -- `processCookieDeletions`
  unfoldable pub process_cookie_deletions : List CookieConfig → Cookies → Act S Cookies
  unfolding delete_cookies rebuild_cookie_header
  process_cookie_deletions configs cookies s =
      let ((left, modified), s') = delete_cookies configs cookies false s in
      (left, if modified then rebuild_cookie_header left s' else s')

  -- `onRequestHeaders`, with the new `request_cookies_`.
  unfoldable pub on_request_headers :
      List CookieConfig → Cookies → Act S (FilterHeadersStatus × Cookies)
  unfolding parse_request_cookies process_cookie_deletions
  on_request_headers configs cookies s =
      let (left, s') = process_cookie_deletions configs (parse_request_cookies cookies s) s in
      ((continue, left), s')

  -- `setCookie`
  unfoldable pub set_cookie : CookieConfig → S → S
  set_cookie c s =
      let is_persistent = gtb_ℤ c.max_age 0 in
      let cookie_value =
        c.name
        ++ codes "="
        ++ c.value
        ++ codes "; Path="
        ++ c.path
        ++ text_if (not (is_empty c.domain)) (codes "; Domain=" ++ c.domain)
        ++ text_if is_persistent (codes "; Max-Age=" ++ lib.show_ℤ c.max_age)
        ++ text_if c.http_only (codes "; HttpOnly")
        ++ text_if c.secure (codes "; Secure")
        ++ text_if c.same_site_strict (codes "; SameSite=Strict") in
      sdk.log info
        (codes "Setting "
          ++ (if is_persistent then codes "persistent" else codes "session")
          ++ codes " cookie: "
          ++ c.name)
        (sdk.add_header response_headers (codes "Set-Cookie") cookie_value s).1

  -- Whether a header is a `Set-Cookie` header, and whether one is for the cookie of that name.
  abbrev pub is_set_cookie : Text × Text → Bool
  is_set_cookie h = lib.equals_ignore_case h.0 (codes "Set-Cookie")

  abbrev pub is_for : Text → Text × Text → Bool
  is_for name h = is_prefix (name ++ codes "=") (lib.strip_leading_ascii_whitespace h.1)

  -- `for (const auto& value : kept) addResponseHeader("Set-Cookie", value);`
  add_each : Cookies → S → S
  add_each [] s = s
  add_each (h ∷ kept) s =
      add_each kept (sdk.add_header response_headers (codes "Set-Cookie") h.1 s).1

  -- `removeExistingSetCookie`
  unfoldable pub remove_existing_set_cookie : Text → S → S
  unfolding add_each
  remove_existing_set_cookie name s =
      let headers = keep is_set_cookie (sdk.header_pairs response_headers s) in
      if any (is_for name) headers
      then add_each (keep (λ h. not (is_for name h)) headers)
          (sdk.remove_header response_headers (codes "Set-Cookie") s).1
      else s

  -- `overwriteCookie`
  unfoldable pub overwrite_cookie : CookieConfig → S → S
  unfolding remove_existing_set_cookie set_cookie
  overwrite_cookie c s =
      let s' = remove_existing_set_cookie c.name s in
      if not (is_empty c.value)
      then sdk.log info (codes "Overwriting existing cookie: " ++ c.name) (set_cookie c s')
      else sdk.log info (codes "Removing Set-Cookie directive for: " ++ c.name)
          (sdk.add_header response_headers (codes "Set-Cookie")
            (c.name
              ++ codes "=; Path="
              ++ c.path
              ++ codes "; Max-Age=0"
              ++ text_if (not (is_empty c.domain)) (codes "; Domain=" ++ c.domain))
            s').1

  -- `processCookieOperations`
  unfoldable pub process_cookie_operations : List CookieConfig → S → S
  unfolding set_cookie overwrite_cookie
  process_cookie_operations [] s = s
  process_cookie_operations (c ∷ configs) s = elim c.operation [
    | set ↦ process_cookie_operations configs (set_cookie c s)
    | overwrite ↦ process_cookie_operations configs (overwrite_cookie c s)
    | _ ↦ process_cookie_operations configs s
  ]

  -- `onResponseHeaders`
  unfoldable pub on_response_headers : List CookieConfig → Act S FilterHeadersStatus
  unfolding process_cookie_operations
  on_response_headers configs s = (continue, process_cookie_operations configs s)
