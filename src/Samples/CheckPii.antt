-- ===== src/Samples/CheckPii.antt =====
-- plugins/samples/check_pii/plugin.cc: card numbers and ten-digit codes are masked in the headers
-- and the body of a response. RE2 is a parameter.
pub mod Masking
use service_extensions_sampl.Base.{
  Text, ℕ, Bool, false, ◌&&◌, ◌||◌, Option, none, some, List, [], ◌∷◌, ltb, if◌then◌else◌, codes,
}
use service_extensions_sampl.Wasm.{
  request_headers, response_headers, http_response_body, FilterHeadersStatus, continue,
  FilterDataStatus, continue_data,
}
use service_extensions_sampl.Sdk.{Sdk, Act}

-- `GlobalReplace` with each of the two expressions and its mask: the text and the number of
-- replacements; and whether the expressions compile.
pub record Matchers : Type 0 where
  pub replace_cards : Text → Text × ℕ
  pub replace_codes : Text → Text × ℕ
  pub cards_ok : Bool
  pub codes_ok : Bool

module _ (lib : Matchers) where
  -- `onConfigure`
  unfoldable pub on_configure : Bool
  on_configure = lib.cards_ok && lib.codes_ok

  -- `maskPII`: the new text and `modified`.
  unfoldable pub mask_pii : Text → Text × Bool
  mask_pii v =
      let (v₁, n) = lib.replace_cards v in
      let (v₂, m) = lib.replace_codes v₁ in (v₂, ltb 0 n || ltb 0 m)

  -- The loop of `onResponseHeaders`, from `changed`: the new headers and `changed`.
  unfoldable pub mask_pairs : List (Text × Text) → Bool → List (Text × Text) × Bool
  mask_pairs [] changed = ([], changed)
  mask_pairs ((k, v) ∷ pairs) changed =
      let (v', modified) = mask_pii v in
      let (rest, changed') = mask_pairs pairs (modified || changed) in ((k, v') ∷ rest, changed')

  module _ {S : Type 0} (sdk : Sdk S) where
    -- `onRequestHeaders`
    unfoldable pub on_request_headers : Act S FilterHeadersStatus
    on_request_headers s = (
      continue,
      (sdk.replace_header request_headers (codes "accept-encoding") (codes "identity") s).1,
    )

    -- `onResponseHeaders`
    unfoldable pub on_response_headers : Act S FilterHeadersStatus
    on_response_headers s =
        let (new_headers, changed) = mask_pairs (sdk.header_pairs response_headers s) false in
        (continue, if changed then (sdk.set_header_pairs response_headers new_headers s).1 else s)

    -- `onResponseBody`; `none` if there is no buffer, which the code would dereference.
    unfoldable pub on_response_body : ℕ → Bool → S → Option (FilterDataStatus × S)
    on_response_body body_buffer_length end_of_stream s =
        elim (sdk.get_buffer_bytes http_response_body 0 body_buffer_length s) [
          | none ↦ none
          | some body ↦
              let (masked, modified) = mask_pii body in
              some (
                continue_data,
                if modified
                    then (sdk.set_buffer http_response_body 0 body_buffer_length masked s).1
                    else s,
              )
        ]
