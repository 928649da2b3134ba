-- ===== src/Samples/HmacAuthToken/Stripping.antt =====
-- plugins/samples/hmac_authtoken/plugin.cc: what goes on in place of a signed path.
use service_extensions_sampl.Base.{
  Text, ◌≡◌, refl, ap, ◌∙◌, inl, inr, Bool, some, arith, if◌then◌else◌, Option-cases, codes,
  text_eq_iff,
}
use service_extensions_sampl.Wasm.{HeaderMapType, request_headers, continue}
use service_extensions_sampl.Sdk.{Sdk, IsLawful}
use service_extensions_sampl.Urls.{Urls}
use service_extensions_sampl.Samples.HmacAuthToken.{
  Libraries, compute_hmac_signature, check_url, on_request_headers,
}

-- On a host that keeps its laws: if a request passes, the next plugin reads a path without the
-- token, the token was the signature of exactly that path, and all other headers stay.
pub passed_path_is_signed :
    {U : Type 0} (urls : Urls U) (lib : Libraries) {S : Type 0} (sdk : Sdk S)
    (same : Text → Text → Bool) (Open : HeaderMapType → S → Type 0)
    → IsLawful sdk same Open
    → (s u : S) → Open request_headers s
    → on_request_headers urls lib sdk s ≡ some (continue, u)
    → (text : Text) × (link : U) × (path : Text) × (sdk.get_header request_headers (codes ":path") s
        ≡ some text)
      × (urls.parse_relative_ref text ≡ some link)
      × (path ≡ urls.buffer (urls.erase_found link (codes "token")))
      × (urls.find_param link (codes "token") ≡ some (compute_hmac_signature lib path))
      × ((j : Text)
          → sdk.get_header request_headers j u
            ≡ (if same j (codes ":path") then some path else sdk.get_header request_headers j s))
unfolding on_request_headers check_url
passed_path_is_signed urls lib sdk same Open laws s u opened h =
    elim (Option-cases (sdk.get_header request_headers (codes ":path") s)) [
      | inl a ↦ absurd (ground arith)
      | inr (text, a) ↦ elim (Option-cases (urls.parse_relative_ref text)) [
        | inl b ↦ absurd (ground arith)
        | inr (link, b) ↦ elim (Option-cases (urls.find_param link (codes "token"))) [
          | inl c ↦ absurd (ground arith)
          | inr (token, c) ↦
              let path = urls.buffer (urls.erase_found link (codes "token")) in
              let signed = text_eq_iff (compute_hmac_signature lib path) token in
              let next = (sdk.replace_header request_headers (codes ":path") path s).1 in
              (
                text,
                link,
                path,
                a,
                b,
                refl,
                ground (arith, signed),
                λ j.
                    ap (sdk.get_header request_headers j) (let e : u ≡ next = ground arith in e)
                    ∙ laws.get-replace request_headers j (codes ":path") path s opened,
              )
        ]
      ]
    ]
