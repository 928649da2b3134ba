-- ===== src/Samples/JwtAuth/Verified.antt =====
-- plugins/samples/jwt_auth/plugin.cc: what goes on in place of a path with a token.
use service_extensions_sampl.Base.{
  Text, ℕ, ◌≡◌, ap, ◌∙◌, inl, inr, Bool, true, some, ◌∷◌, arith, if◌then◌else◌, Option-cases, codes,
}
use service_extensions_sampl.Wasm.{HeaderMapType, request_headers, continue}
use service_extensions_sampl.Sdk.{Sdk, IsLawful}
use service_extensions_sampl.Urls.{Urls}
use service_extensions_sampl.Samples.JwtAuth.{Verifier, check_url, on_request_headers}

-- On a host that keeps its laws: if a request with a path passes, its path is a URL with a token
-- that the configured keys verify, the next plugin reads the path without the token, and all other
-- headers stay.
pub passed_token_is_verified :
    {U J K : Type 0} (urls : Urls U) (jwt : Verifier J K) {S : Type 0} (sdk : Sdk S)
    (same : Text → Text → Bool) (Open : HeaderMapType → S → Type 0)
    → IsLawful sdk same Open
    → (jwks : K) (c : ℕ) (text : Text) (s u : S) → Open request_headers s
    → sdk.get_header request_headers (codes ":path") s ≡ some (c ∷ text)
    → on_request_headers urls jwt sdk jwks s ≡ some (continue, u)
    → (link : U) × (field : Text) × (token : J) × (urls.parse_uri_reference (c ∷ text) ≡ some link)
      × (urls.find_param link (codes "jwt") ≡ some field)
      × (jwt.parse_from_string field ≡ some token)
      × (jwt.is_verified token jwks ≡ true)
      × ((j : Text)
          → sdk.get_header request_headers j u ≡ (
              if same j (codes ":path")
              then some (urls.buffer (urls.erase_found link (codes "jwt")))
              else sdk.get_header request_headers j s))
unfolding on_request_headers check_url
passed_token_is_verified urls jwt sdk same Open laws jwks c text s u opened a h =
    elim (Option-cases (urls.parse_uri_reference (c ∷ text))) [
      | inl b ↦ absurd (ground arith)
      | inr (link, b) ↦ elim (Option-cases (urls.find_param link (codes "jwt"))) [
        | inl d ↦ absurd (ground arith)
        | inr (field, d) ↦ elim (Option-cases (jwt.parse_from_string field)) [
          | inl e ↦ absurd (ground arith)
          | inr (token, e) ↦
              let path = urls.buffer (urls.erase_found link (codes "jwt")) in
              let next = (sdk.replace_header request_headers (codes ":path") path s).1 in
              (
                link,
                field,
                token,
                b,
                d,
                e,
                ground arith,
                λ j.
                    ap (sdk.get_header request_headers j) (let n : u ≡ next = ground arith in n)
                    ∙ laws.get-replace request_headers j (codes ":path") path s opened,
              )
        ]
      ]
    ]
