-- ===== src/Samples/BodyChunking/Marks.antt =====
-- plugins/samples/body_chunking/plugin.cc: what a chunk becomes on the host of plugins/test.
use service_extensions_sampl.Base.{
  Text, ℕ, ◌≡◌, refl, Bool, false, List, [], ◌∷◌, ◌++◌, arith, ◌==◌, length, codes,
}
use service_extensions_sampl.Framework.Stream.{Stream, get_buffer}
use service_extensions_sampl.Framework.Stream.Send.{send_request_body, send_response_body}
use service_extensions_sampl.Framework.Buffer.Laws.{copy_from_parts}
use service_extensions_sampl.Framework.Hosted.{hosted, write_buffer}
use service_extensions_sampl.Samples.BodyChunking.{add_mark, on_request_body, on_response_body}

-- A chunk that is not empty comes out of the test host with the mark of its direction behind it.
pub chunks_are_marked :
    (less : Text → Text → Bool) (separated : List Text → Text) (translate : Text → Text) (c : ℕ)
    (chunk : Text) (e : Bool) (s : Stream)
    → s.sent_local_response ≡ false
    → let sdk = hosted less separated translate in
      ((send_request_body (λ n f. on_request_body sdk n) (c ∷ chunk) e s).0.body
        ≡ c ∷ chunk ++ codes "foo")
      × ((send_response_body (λ n f. on_response_body sdk n) (c ∷ chunk) e s).0.body
          ≡ c ∷ chunk ++ codes "bar")
unfolding send_request_body send_response_body on_request_body on_response_body add_mark hosted
    write_buffer get_buffer
chunks_are_marked less separated translate c chunk e s h =
    let n = length (c ∷ chunk) in
    let foo = copy_from_parts [] (c ∷ chunk) [] (codes "foo") n 0 (omega arith) in
    let bar = copy_from_parts [] (c ∷ chunk) [] (codes "bar") n 0 (omega arith) in
    let filled : (n == 0) ≡ false = ground arith in
    (rw (h, foo.0, filled) refl, rw (h, bar.0, filled) refl)
