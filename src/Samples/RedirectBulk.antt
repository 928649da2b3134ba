-- ===== src/Samples/RedirectBulk.antt =====
-- plugins/samples/redirect_bulk/plugin.cc: domains are redirected by a configured table.
pub mod Table
use service_extensions_sampl.Base.{
  Text, ℕ, Bool, true, false, Option, none, some, List, [], ◌∷◌, ◌++◌, ◌==◌, if◌then◌else◌, length,
  take, codes, text_eq, find,
}
use service_extensions_sampl.Wasm.{
  request_headers, plugin_configuration, FilterHeadersStatus, continue, continue_and_end_stream,
  info, warn, error,
}
use service_extensions_sampl.Sdk.{Sdk, Act}

-- What the plugin calls of Abseil.
pub record Strings : Type 0 where
  pub str_split : Text → ℕ → List Text
  pub strip_ascii_whitespace : Text → Text
  pub ascii_str_to_lower : Text → Text
  pub show : ℕ → Text

-- `domain_mappings_`, as an association list.
abbrev pub Mappings : Type 0
Mappings = List (Text × Text)

-- `domain_mappings_[source] = target`
unfoldable pub assign : Text → Text → Mappings → Mappings
assign k v [] = (k, v) ∷ []
assign k v ((j, w) ∷ m) = if text_eq k j then (j, v) ∷ m else (j, w) ∷ assign k v m

-- `domain_mappings_.find(domain)`
unfoldable pub lookup : Text → Mappings → Option Text
lookup k [] = none
lookup k ((j, w) ∷ m) = if text_eq k j then some w else lookup k m

-- Whether a stripped line is empty or a comment.
unfoldable pub is_skipped : Text → Bool
is_skipped [] = true
is_skipped (c ∷ line) = c == b'#'

-- The entry that a stripped line makes, if it has two parts.
abbrev pub entry : (Text → Text) → List Text → Option (Text × Text)
entry to_lower (source ∷ target ∷ []) = some (to_lower source, target)
entry to_lower _ = none

abbrev value_or : Text → Option Text → Text
value_or d none = d
value_or d (some v) = v

-- `host_view.substr(0, host_view.find(':'))`
abbrev pub host_part : Text → Text
host_part host = elim (find host (codes ":")) [ none ↦ host | some n ↦ take n host ]

module _ (lib : Strings) where
  module _ {S : Type 0} (sdk : Sdk S) where
    -- The loop over the lines in `onConfigure`.
    unfoldable pub configure_lines : List Text → Mappings → Act S Mappings
    configure_lines [] m s = (m, s)
    configure_lines (line ∷ lines) m s =
        let stripped = lib.strip_ascii_whitespace line in
        elim (is_skipped stripped) [
          | true ↦ configure_lines lines m s
          | false ↦ elim (entry lib.ascii_str_to_lower (lib.str_split stripped b' ')) [
            | none ↦
                configure_lines lines m
                  (sdk.log warn (codes "Invalid mapping format: " ++ stripped) s)
            | some (source, target) ↦ configure_lines lines (assign source target m) s
          ]
        ]

    -- `onConfigure`, which always returns true.
    unfoldable pub on_configure : ℕ → Act S Mappings
    on_configure config_len s = elim (sdk.get_buffer_bytes plugin_configuration 0 config_len s) [
      | none ↦
          ([], sdk.log warn (codes "No configuration provided, no redirects will be performed") s)
      | some [] ↦
          ([], sdk.log warn (codes "No configuration provided, no redirects will be performed") s)
      | some (c ∷ t) ↦
          let (m, s') = configure_lines (lib.str_split (c ∷ t) 10) [] s in
          (m, sdk.log info (codes "Loaded " ++ lib.show (length m) ++ codes " domain mappings") s')
    ]

    -- `onRequestHeaders`
    unfoldable pub on_request_headers : Mappings → Act S FilterHeadersStatus
    on_request_headers m s = elim (sdk.get_header request_headers (codes ":authority") s) [
      | none ↦ (continue, sdk.log error (codes "Failed to get :authority header") s)
      | some authority ↦ elim (lookup (lib.ascii_str_to_lower (host_part authority)) m) [
        | none ↦ (continue, s)
        | some target ↦
            let path = value_or (codes "/") (sdk.get_header request_headers (codes ":path") s) in
            let scheme =
              value_or (codes "https") (sdk.get_header request_headers (codes ":scheme") s) in
            let new_url = scheme ++ (codes "://" ++ (target ++ path)) in
            (
              continue_and_end_stream,
              sdk.send_local_response 301 [] (codes "Redirecting to " ++ new_url)
                  ((codes "Location", new_url) ∷ []) s,
            )
      ]
    ]
