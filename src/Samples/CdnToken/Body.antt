-- ===== src/Samples/CdnToken/Body.antt =====
-- plugins/samples/cdn_token_generator/plugin.cc: what the callback for a response body writes.
use service_extensions_sampl.Base.{
  Text, ℕ, ◌≤◌, ◌≡◌, refl, sym, ◌∙◌, ◌⊎◌, inl, inr, true, false, some, List, [], ◌∷◌, ◌++◌, arith,
  ltb, ◌==◌, Bool-cases, is_empty, codes,
}
use service_extensions_sampl.Wasm.{http_response_body, continue_data, info}
use service_extensions_sampl.Sdk.{Sdk}
use service_extensions_sampl.Samples.CdnToken.{
  Root, Libraries, generate_signed_url, replace_from_end, count_replacements, on_response_body,
  max_body_size,
}
use service_extensions_sampl.Samples.CdnToken.Signing.{IsFinder, Signed, replace_from_end-Signed}

-- Without a replacement the body stays.
replace_none :
    (sign : Text → Text) (body : Text) (matches : List (ℕ × Text))
    → count_replacements sign matches ≡ 0
    → replace_from_end sign body matches ≡ body
unfolding replace_from_end
replace_none sign body [] h = refl
replace_none sign body ((start, link) ∷ matches) h = elim (Bool-cases (is_empty (sign link))) [
  | inl e ↦ rw (e, replace_from_end) (replace_none sign body matches (ground arith))
  | inr e ↦ absurd (ground arith)
]

-- At the end of a stream, for a body of at most 1 MiB, the callback returns with `Continue`. Either
-- it writes the body with every URL replaced by its signed form, or that form is the body itself
-- and the callback changes nothing.
pub on_response_body-Signed :
    (lib : Libraries) {S : Type 0} (sdk : Sdk S) (root : Root) (now len : ℕ) (body : Text) (s : S)
    → IsFinder lib
    → len ≤ 1048576
    → sdk.get_buffer_bytes http_response_body 0 len s ≡ some body
    → (out : Text) × (u : S) × Signed lib (generate_signed_url lib root now) body out
      × (((out ≡ body) × (on_response_body lib sdk root now len true s ≡ some (continue_data, s)))
          ⊎ (on_response_body lib sdk root now len true s
              ≡ some (continue_data, (sdk.set_buffer http_response_body 0 len out u).1)))
unfolding on_response_body
on_response_body-Signed lib sdk root now len body s finder small read =
    let sign = generate_signed_url lib root now in
    let (matches, out, found, replaced, signed) =
      replace_from_end-Signed lib root now body finder in
    let n = count_replacements sign matches in
    let fits : ltb max_body_size len ≡ false = ground arith in
    let logged =
      sdk.log info (codes "Replaced " ++ lib.show n ++ codes " URLs with signed URLs") s in
    elim (Bool-cases (n == 0)) [
      | inl e ↦ (
        out,
        s,
        signed,
        inl (
          sym replaced ∙ replace_none sign body matches (ground arith),
          rw (fits, read, found, e, on_response_body) refl,
        ),
      )
      | inr e ↦
          (out, logged, signed, inr (rw (fits, read, found, e, on_response_body, replaced) refl))
    ]
