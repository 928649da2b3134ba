-- ===== src/Samples/AbTesting.antt =====
-- plugins/samples/ab_testing/plugin.cc: a share of the users is served the second version.
-- `none` as a result is a missing path or one that is no URL, which the code would dereference.
use service_extensions_sampl.Base.{
  Text, ℕ, ◌%◌, Bool, not, ◌&&◌, Option, none, some, [], ◌++◌, leb, if◌then◌else◌, length, is_empty,
  drop, codes,
}
use service_extensions_sampl.Urls.{Urls}
use service_extensions_sampl.Wasm.{request_headers, FilterHeadersStatus, continue}
use service_extensions_sampl.Sdk.{Sdk}

abbrev pub a_path : Text
a_path = codes "/v1/"

abbrev pub b_path : Text
b_path = codes "/v2/"

abbrev pub percentile : ℕ
percentile = 50

-- `StartsWithIgnoreCase` and the hash of a text.
pub record Libraries : Type 0 where
  pub starts_with_ignore_case : Text → Text → Bool
  pub hash : Text → ℕ

module _ {U : Type 0} (urls : Urls U) (lib : Libraries) where
  -- `extractUserFromPath`
  unfoldable pub extract_user_from_path : Text → Option Text
  extract_user_from_path path = elim (urls.parse_relative_ref path) [
    | none ↦ none
    | some url ↦ elim (urls.find_param url (codes "user")) [
      | none ↦ some []
      | some user ↦ some user
    ]
  ]

  -- The condition of `onRequestHeaders`.
  abbrev pub is_eligible : Text → Text → Bool
  is_eligible path user =
      lib.starts_with_ignore_case path a_path
      && not (is_empty user)
      && leb (lib.hash user % 100) percentile

  -- `onRequestHeaders`
  unfoldable pub on_request_headers : {S : Type 0} → Sdk S → S → Option (FilterHeadersStatus × S)
  on_request_headers sdk s = elim (sdk.get_header request_headers (codes ":path") s) [
    | none ↦ none
    | some path ↦ elim (extract_user_from_path path) [
      | none ↦ none
      | some user ↦ some (
        continue,
        if is_eligible path user
            then (sdk.replace_header request_headers (codes ":path")
                (b_path ++ drop (length a_path) path) s).1
            else s,
      )
    ]
  ]
