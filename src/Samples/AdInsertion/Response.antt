-- ===== src/Samples/AdInsertion/Response.antt =====
-- plugins/samples/ad_insertion/plugin.cc: a whole response on the host of plugins/test.
use service_extensions_sampl.Base.{
  Text, ◌+◌, ◌%◌, ◌^◌, ◌≤◌, ◌≡◌, refl, inl, inr, Bool, true, false, not, ◌&&◌, List, append-nil,
  arith, leb, if◌then◌else◌, Bool-cases, length, drop-all, take-all,
}
use service_extensions_sampl.Wasm.{ok, value}
use service_extensions_sampl.Framework.Buffer.{copy_to, copy_from, replace}
use service_extensions_sampl.Framework.Stream.{Stream, get_buffer}
use service_extensions_sampl.Framework.Stream.Send.{send_response_body}
use service_extensions_sampl.Framework.Hosted.{hosted, write_buffer}
use service_extensions_sampl.Samples.AdInsertion.{Root, Http, Insertion}
use service_extensions_sampl.Samples.AdInsertion.Insert.{prepare}
use service_extensions_sampl.Samples.AdInsertion.Insert.Laws.{spread}
use service_extensions_sampl.Samples.AdInsertion.Process.{
  IsSort, processed, on_response_body, ordered, processed-spread,
}

-- Reading the whole buffer, and writing a text that is not shorter over it.
read_all : (body : Text) → copy_to body 0 (length body) ≡ value body
unfolding copy_to
read_all body =
    let whole : leb ((0 + length body) % 2 ^ 64) (length body) ≡ true = ground arith in
    rw (whole, take-all (length body) body (omega arith)) refl

write_all :
    (body out : Text) → length body ≤ length out → copy_from body 0 (length out) out ≡ (ok, out)
unfolding copy_from replace
write_all body out h =
    let start : leb 0 (length body) ≡ true = ground arith in
    rw (start, drop-all (0 + length out) body (omega arith), append-nil) refl

-- On the test host, a last chunk of HTML comes out with every insertion at its position of the
-- original chunk, and a chunk of any other response, or of an ad request, as it was.
pub response_gets_ads :
    (less : Text → Text → Bool) (separated : List Text → Text) (translate : Text → Text)
    (sort : List Insertion → List Insertion)
    → IsSort sort
    → (root : Root) (h : Http) (body : Text) (s : Stream) → s.sent_local_response ≡ false
    → (send_response_body
        (on_response_body sort (hosted less separated translate) root h)
        body
        true
        s).0.body
      ≡ (if h.should_insert_ads && not h.is_ad_request
          then spread body (ordered sort (prepare root body))
          else body)
unfolding send_response_body on_response_body hosted write_buffer get_buffer
response_gets_ads less separated translate sort is_sort root h body s fresh =
    let out = processed sort root body in
    let (same, longer) = processed-spread sort is_sort root body in
    let written = write_all body out (omega (arith, longer)) in
    elim (Bool-cases h.should_insert_ads) [
      | inr e ↦ rw (fresh, e) refl
      | inl e ↦ elim (Bool-cases h.is_ad_request) [
        | inl g ↦ rw (fresh, e, g) refl
        | inr g ↦ rw (fresh, e, g, read_all body, written) same
      ]
    ]
