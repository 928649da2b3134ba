-- ===== src/Samples/RegexRewrite.antt =====
-- plugins/samples/regex_rewrite/plugin.cc: the first match in the path is replaced.
use service_extensions_sampl.Base.{Text, Bool, Option, none, some, if◌then◌else◌, codes}
use service_extensions_sampl.Wasm.{request_headers, FilterHeadersStatus, continue, error}
use service_extensions_sampl.Sdk.{Sdk, Act, is_ok}

-- RE2 with the expression of the plugin: whether it compiles, and `Replace` of the first match,
-- `none` without a match.
pub record Matcher : Type 0 where
  pub is_compiled : Bool
  pub replace_first : Text → Option Text

-- `onConfigure`
unfoldable pub on_configure : Matcher → Bool
on_configure re = re.is_compiled

-- `onRequestHeaders`
unfoldable pub on_request_headers : Matcher → {S : Type 0} → Sdk S → Act S FilterHeadersStatus
on_request_headers re sdk s = elim (sdk.get_header request_headers (codes ":path") s) [
  | none ↦ (continue, sdk.log error (codes "Failed to get :path header") s)
  | some path ↦ elim (re.replace_first path) [
    | none ↦ (continue, s)
    | some edit ↦
        let (r, s') = sdk.replace_header request_headers (codes ":path") edit s in
        (
          continue,
          if is_ok r then s' else sdk.log error (codes "Failed to replace :path header") s',
        )
  ]
]
