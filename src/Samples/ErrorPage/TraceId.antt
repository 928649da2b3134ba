-- ===== src/Samples/ErrorPage/TraceId.antt =====
-- plugins/samples/error_page_with_traceid/plugin.cc: the trace id of a Google Cloud trace header.
use service_extensions_sampl.Base.{
  Text, ℕ, zero, suc, ◌≡◌, refl, sym, inl, inr, false, none, some, [], ◌∷◌, ◌++◌, append-nil, arith,
  ◌==◌, Option-cases, take, drop, any, take-append-drop, codes, is_prefix, find,
}
use mathlib.Core.Path.{subst}
use service_extensions_sampl.Wasm.{request_headers}
use service_extensions_sampl.Sdk.{Sdk}
use service_extensions_sampl.Samples.ErrorPage.{
  Libraries, before_slash, extract_trace_id, on_request_headers,
}

-- What stands before the first place of a byte does not have it.
take_before :
    (c : ℕ) (s : Text) (n : ℕ) → find s (c ∷ []) ≡ some n → any (λ d. c == d) (take n s) ≡ false
unfolding find is_prefix
take_before c [] n h = absurd (cc h)
take_before c (d ∷ s) zero h = refl
take_before c (d ∷ s) (suc n) h = elim (Option-cases (find s (c ∷ []))) [
  | inl e ↦ absurd (ground arith)
  | inr (m, e) ↦ ground (arith, take_before c s m e)
]

not_found_none : (c : ℕ) (s : Text) → find s (c ∷ []) ≡ none → any (λ d. c == d) s ≡ false
unfolding find is_prefix
not_found_none c [] h = refl
not_found_none c (d ∷ s) h = elim (Option-cases (find s (c ∷ []))) [
  | inl e ↦ ground (arith, not_found_none c s e)
  | inr (m, e) ↦ absurd (ground arith)
]

before_slash-prefix :
    (v : Text)
    → (rest : Text) × (v ≡ before_slash v ++ rest) × (any (λ d. b'/' == d) (before_slash v) ≡ false)
unfolding before_slash codes
before_slash-prefix v = elim (Option-cases (find v (b'/' ∷ []))) [
  | inl e ↦
      ([], rw (e, before_slash, append-nil) refl, rw (e, before_slash) (not_found_none b'/' v e))
  | inr (n, e) ↦ (
    drop n v,
    rw (e, before_slash) (sym (take-append-drop n v)),
    rw (e, before_slash) (take_before b'/' v n e),
  )
]

-- The id that is taken from a Google Cloud trace header is what the header begins with and has no
-- slash.
pub cloud_trace_id :
    (lib : Libraries) {S : Type 0} (sdk : Sdk S) (c : ℕ) (t : Text) (s : S)
    → sdk.get_header request_headers (codes "x-cloud-trace-context") s ≡ some (c ∷ t)
    → let id = (on_request_headers lib sdk s).0.1 in
      (rest : Text) × (c ∷ t ≡ id ++ rest) × (any (λ d. b'/' == d) id ≡ false)
unfolding on_request_headers extract_trace_id
cloud_trace_id lib sdk c t s e =
    subst (λ (id : Text). (rest : Text) × (c ∷ t ≡ id ++ rest) × (any (λ d. b'/' == d) id ≡ false))
      (let same : before_slash (c ∷ t) ≡ extract_trace_id lib sdk s =
          rw (e, extract_trace_id) refl in
        same)
      (before_slash-prefix (c ∷ t))
