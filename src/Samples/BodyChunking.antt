-- ===== src/Samples/BodyChunking.antt =====
-- plugins/samples/body_chunking/plugin.cc: a mark is added to the end of each body chunk.
pub mod Marks
use service_extensions_sampl.Base.{Text, ℕ, ◌++◌, ◌==◌, if◌then◌else◌, codes}
use service_extensions_sampl.Wasm.{
  BufferType, http_request_body, http_response_body, FilterDataStatus, continue_data, error,
}
use service_extensions_sampl.Sdk.{Sdk, Act, is_ok}

module _ {S : Type 0} (sdk : Sdk S) where
  -- Both callbacks, by their buffer, their mark and the names in their log lines.
  unfoldable pub add_mark : BufferType → Text → Text → Text → ℕ → Act S FilterDataStatus
  add_mark buffer mark callback body chunk_len s =
      if chunk_len == 0
      then (continue_data, sdk.log error (codes "Received empty chunk in " ++ callback) s)
      else (let (r, s') = sdk.set_buffer buffer chunk_len 0 mark s in
          (
            continue_data,
            if is_ok r
                then s'
                else sdk.log error (codes "Failed to set " ++ body ++ codes " body buffer") s',
          ))

  -- `onRequestBody`
  unfoldable pub on_request_body : ℕ → Act S FilterDataStatus
  unfolding add_mark
  on_request_body =
      add_mark http_request_body (codes "foo") (codes "onRequestBody") (codes "request")

  -- `onResponseBody`
  unfoldable pub on_response_body : ℕ → Act S FilterDataStatus
  unfolding add_mark
  on_response_body =
      add_mark http_response_body (codes "bar") (codes "onResponseBody") (codes "response")
