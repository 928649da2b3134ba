-- ===== src/Samples/AdInsertion.antt =====
-- plugins/samples/ad_insertion/plugin.cc: ads and the GPT library are inserted into an HTML body.
-- `std::sort` leaves open how equal positions are ordered, so it is the parameter `sort`.
pub mod Insert
pub mod Process
pub mod Response
use service_extensions_sampl.Base.{
  Text, ℕ, String, Bool, true, false, ◌&&◌, Option, none, some, List, [], ◌∷◌, ◌++◌, leb, ◌==◌,
  if◌then◌else◌, has_value, length, map, get_or, text_lt, codes, text_eq, find,
}
use service_extensions_sampl.Wasm.{
  request_headers, response_headers, plugin_configuration, FilterHeadersStatus, continue, info,
  warn,
}
use service_extensions_sampl.Sdk.{Sdk, Act}
use service_extensions_sampl.Absl.{Absl}

-- `MyRootContext::AdConfig`
pub record AdConfig : Type 0 where
  pub slot : Text
  pub size : Text
  pub marker : Text
  pub insert_before : Bool

-- The fields of `MyRootContext`. The `std::map` is the list of its entries in key order.
pub record Root : Type 0 where
  pub ad_configs : List (Text × AdConfig)
  pub gpt_library_url : Text
  pub inject_gpt_library : Bool

-- The fields of `MyHttpContext`.
pub record Http : Type 0 where
  pub should_insert_ads : Bool
  pub is_ad_request : Bool

-- A position in the body and what goes there.
abbrev pub Insertion : Type 0
Insertion = ℕ × Text

-- `ad_configs_[position] = config`
unfoldable pub assign_config : Text → AdConfig → List (Text × AdConfig) → List (Text × AdConfig)
assign_config k c [] = (k, c) ∷ []
assign_config k c ((j, d) ∷ m) =
    if text_eq k j
    then (j, c) ∷ m
    else if text_lt k j
    then (k, c) ∷ (j, d) ∷ m
    else (j, d) ∷ assign_config k c m

abbrev ad : String → String → String → Bool → AdConfig
ad slot size marker before = record {
  slot = codes slot;
  size = codes size;
  marker = codes marker;
  insert_before = before;
}

default_root : Root
unfolding assign_config
default_root = record {
  ad_configs = assign_config (codes "sidebar") (ad "/1234/sidebar_ad" "160x600" "</article>" true) (
      assign_config (codes "content") (ad "/1234/content_ad" "300x250" "<article>" false)
        (assign_config (codes "header") (ad "/1234/header_ad" "728x90" "<body>" false) []));
  gpt_library_url = codes "https://securepubads.g.doubleclick.net/tag/js/gpt.js";
  inject_gpt_library = true;
}

-- `parts[n]`
abbrev part : ℕ → List Text → Text
part n parts = get_or parts n []

-- One line that is neither empty nor a comment, from its trimmed parts; `none` for a bad line.
apply_parts : List Text → Root → Option Root
apply_parts parts r =
    if text_eq (part 0 parts) (codes "gpt_url") && leb 2 (length parts)
    then some (record r { gpt_library_url = part 1 parts })
    else if text_eq (part 0 parts) (codes "inject_gpt") && leb 2 (length parts)
    then some (record r { inject_gpt_library = text_eq (part 1 parts) (codes "true") })
    else if text_eq (part 0 parts) (codes "ad") && leb 6 (length parts)
    then some (record r {
      ad_configs =
          assign_config (part 1 parts)
            (record {
              slot = part 2 parts;
              size = part 3 parts;
              marker = part 5 parts;
              insert_before = text_eq (part 4 parts) (codes "true");
            })
            r.ad_configs;
    })
    else none

-- Whether a stripped line is skipped: it is empty or a comment.
unfoldable pub is_skipped : Text → Bool
is_skipped [] = true
is_skipped (c ∷ s) = c == b'#'

module _ {S : Type 0} (sdk : Sdk S) (absl : Absl) where
  -- The loop over the lines of the configuration.
  configure_lines : List Text → Root → Act S Root
  unfolding apply_parts is_skipped
  configure_lines [] r s = (r, s)
  configure_lines (line ∷ lines) r s =
      let stripped = absl.strip_ascii_whitespace line in
      let parts = map absl.strip_ascii_whitespace (absl.str_split stripped b',') in
      elim (is_skipped stripped) [
        | true ↦ configure_lines lines r s
        | false ↦ elim (apply_parts parts r) [
          | some r' ↦ configure_lines lines r' s
          | none ↦
              configure_lines lines r
                (sdk.log warn (codes "Invalid configuration line: " ++ stripped) s)
        ]
      ]

  -- `onConfigure`
  unfoldable pub on_configure : ℕ → Act S (Bool × Root)
  unfolding configure_lines default_root
  on_configure config_len s =
      if config_len == 0
      then (
        (true, default_root),
        sdk.log info (codes "No configuration provided. Using default ad insertion config.") s,
      )
      else elim (sdk.get_buffer_bytes plugin_configuration 0 config_len s) [
        | none ↦ ((true, default_root), s)
        | some [] ↦ ((true, default_root), s)
        | some (c ∷ t) ↦
            let (r, s') =
              configure_lines (absl.str_split (c ∷ t) 10) (record default_root { ad_configs = [] })
                s in
            (
              (true, r),
              sdk.log info
                  (codes "Ad Insertion plugin configured successfully from custom payload.") s',
            )
      ]

  -- `onRequestHeaders`
  unfoldable pub on_request_headers : Http → Act S (FilterHeadersStatus × Http)
  on_request_headers h s = elim (sdk.get_header request_headers (codes ":path") s) [
    | none ↦ ((continue, h), s)
    | some path ↦ (
      (
        continue,
        if has_value (find path (codes "/ads/")) then record h { is_ad_request = true } else h,
      ),
      s,
    )
  ]

  -- `onResponseHeaders`
  unfoldable pub on_response_headers : Http → Act S (FilterHeadersStatus × Http)
  on_response_headers h s = elim (sdk.get_header response_headers (codes "Content-Type") s) [
    | none ↦ ((continue, h), s)
    | some content_type ↦
        if has_value (find content_type (codes "text/html"))
        then (
          (continue, record h { should_insert_ads = true }),
          (sdk.remove_header response_headers (codes "Content-Length") s).1,
        )
        else ((continue, h), s)
  ]
