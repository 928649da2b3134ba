-- ===== src/Lua/Ssl/Laws.antt =====
-- plugins/samples/lua/envoy_lua_api.cc: the chain of a peer's certificates.
use service_extensions_sampl.Base.{
  Text, ◌/◌, ◌%◌, ◌≡◌, refl, sym, ap, ◌∙◌, inl, inr, List, [], ◌∷◌, ◌++◌, append_assoc, Bool-cases,
  All, codes,
}
use service_extensions_sampl.Lua.Status.{fine}
use service_extensions_sampl.Lua.Encoding.{
  is_unreserved, hex_digit, url_encode, to_pem, base64_der_to_url_encoded_pem,
}
use service_extensions_sampl.Lua.Encoding.Laws.{IsByte, url_decode, url_decode-url_encode}
use service_extensions_sampl.Lua.Ssl.{
  Properties, not_empty, or_no_certs, at_most_one, connection, append_certs,
  get_url_encoded_pem_encoded_peer_certificate_chain,
}

url_encode-append : (s t : Text) → url_encode (s ++ t) ≡ url_encode s ++ url_encode t
unfolding url_encode
url_encode-append [] t = refl
url_encode-append (c ∷ s) t = elim (Bool-cases (is_unreserved c)) [
  | inl e ↦ rw e (ap (λ l. c ∷ l) (url_encode-append s t))
  | inr e ↦
      rw e (ap (λ l. 37 ∷ hex_digit (c / 16) ∷ hex_digit (c % 16) ∷ l) (url_encode-append s t))
]

-- The PEM forms of certificates, one after the other.
abbrev pub pems : List Text → Text
pems [] = []
pems (cert ∷ certs) = to_pem cert ++ pems certs

pems-append : (s t : List Text) → pems (s ++ t) ≡ pems s ++ pems t
pems-append [] t = refl
pems-append (c ∷ s) t =
    ap (λ l. to_pem c ++ l) (pems-append s t) ∙ sym (append_assoc (to_pem c) (pems s) (pems t))

module _ {S : Type 0} (host : Properties S) where
  append_certs-pems : (certs : List Text) → append_certs host certs ≡ url_encode (pems certs)
  unfolding append_certs base64_der_to_url_encoded_pem
  append_certs-pems [] = unfold url_encode in refl
  append_certs-pems (c ∷ certs) =
      ap (λ t. url_encode (to_pem c) ++ t) (append_certs-pems certs)
      ∙ sym (url_encode-append (to_pem c) (pems certs))

  -- The certificate of the peer, if there is one, and those of its chain.
  abbrev pub certificates : S → List Text
  certificates s =
      at_most_one host (not_empty (host.get_string (connection host (codes "client_cert_leaf")) s))
      ++ or_no_certs (not_empty (host.get_string (connection host (codes "client_cert_chain")) s))
          (λ chain. host.str_split chain 44)

  -- Decoding the chain gives the PEM forms of the certificate of the peer and of those of its chain,
  -- in order.
  pub chain-pems :
      (s : S)
      → All IsByte (pems (certificates s))
      → (t : Text) × (get_url_encoded_pem_encoded_peer_certificate_chain host s ≡ fine t)
        × (url_decode t ≡ pems (certificates s))
  unfolding get_url_encoded_pem_encoded_peer_certificate_chain
  chain-pems s h =
      let leaf =
        at_most_one host
          (not_empty (host.get_string (connection host (codes "client_cert_leaf")) s)) in
      let chain =
        or_no_certs (not_empty (host.get_string (connection host (codes "client_cert_chain")) s))
          (λ chain. host.str_split chain 44) in
      let whole : append_certs host leaf ++ append_certs host chain
          ≡ url_encode (pems (leaf ++ chain)) =
        rw (append_certs-pems leaf, append_certs-pems chain, pems-append leaf chain)
          (sym (url_encode-append (pems leaf) (pems chain))) in
      (
        url_encode (pems (leaf ++ chain)),
        ap fine whole,
        url_decode-url_encode (pems (leaf ++ chain)) h,
      )
