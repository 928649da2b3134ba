-- ===== src/Samples/ConfigDenylist.antt =====
-- plugins/samples/config_denylist/plugin.cc: requests whose user token is in a configured list are
-- refused.
pub mod Words
pub mod Decision
use service_extensions_sampl.Base.{
  Text, ℕ, zero, suc, Bool, ◌||◌, Option, none, some, List, [], ◌∷◌, ◌++◌, ◌==◌, if◌then◌else◌,
  length, map, take, drop, codes, has_text,
}
use mathlib.Core.Option
use service_extensions_sampl.Wasm.{
  request_headers, plugin_configuration, FilterHeadersStatus, continue,
  stop_all_iteration_and_watermark, info,
}
use service_extensions_sampl.Sdk.{Sdk, Act}

-- The delimiters " \f\n\r\t\v" of `find_first_of`.
unfoldable pub is_delimiter : ℕ → Bool
is_delimiter c = c == 32 || c == 12 || c == 10 || c == 13 || c == 9 || c == 11

-- `config.find_first_of(delimiters, idx)`, of the text from `idx` on: the distance to the first
-- delimiter, `none` for `npos`.
unfoldable pub find_first_of : Text → Option ℕ
unfolding is_delimiter
find_first_of [] = none
find_first_of (c ∷ s) = if is_delimiter c then some 0 else Option.map suc (find_first_of s)

-- `tokens_.insert(token)` into the set, as a list without repetitions.
unfoldable pub insert_token : Text → List Text → List Text
insert_token t tokens = if has_text t tokens then tokens else t ∷ tokens

-- The `while` loop of `onConfigure`. `rest` is the configuration from `idx` on; each round but the
-- last one moves past a delimiter, so the length of the configuration is enough fuel. `none` means
-- that the fuel ran out.
unfoldable pub parse_loop : ℕ → Text → List Text → Option (List Text)
parse_loop fuel [] tokens = some tokens
parse_loop zero (c ∷ rest) tokens = none
parse_loop (suc fuel) (c ∷ rest) tokens = elim (find_first_of (c ∷ rest)) [
  | none ↦ some (insert_token (c ∷ rest) tokens)
  | some zero ↦ parse_loop fuel rest tokens
  | some (suc n) ↦
      parse_loop fuel (drop (suc n) rest) (insert_token (take (suc n) (c ∷ rest)) tokens)
]

module _ {S : Type 0} (sdk : Sdk S) (to_string : ℕ → Text) where
  -- `onConfigure`, with the tokens of `MyRootContext`; `none` is a null configuration buffer, which
  -- the code would dereference, or too little fuel.
  unfoldable pub on_configure : ℕ → S → Option (List Text × S)
  unfolding parse_loop
  on_configure config_len s = elim (sdk.get_buffer_bytes plugin_configuration 0 config_len s) [
    | none ↦ none
    | some config ↦ elim (parse_loop (length config) config []) [
      | none ↦ none
      | some tokens ↦
          some (tokens, sdk.log info (codes "Config keys size " ++ to_string (length tokens)) s)
    ]
  ]

module _ {S : Type 0} (sdk : Sdk S) where
  -- `onRequestHeaders`
  unfoldable pub on_request_headers : List Text → Act S FilterHeadersStatus
  on_request_headers tokens s = elim (sdk.get_header request_headers (codes "User-Token") s) [
    | none ↦ (
      stop_all_iteration_and_watermark,
      sdk.send_local_response 403 [] (codes "Access forbidden - token missing.\n") [] s,
    )
    | some [] ↦ (
      stop_all_iteration_and_watermark,
      sdk.send_local_response 403 [] (codes "Access forbidden - token missing.\n") [] s,
    )
    | some (c ∷ t) ↦
        if has_text (c ∷ t) tokens
        then (
          stop_all_iteration_and_watermark,
          sdk.send_local_response 403 [] (codes "Access forbidden.\n") [] s,
        )
        else (continue, s)
  ]
