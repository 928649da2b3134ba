-- ===== src/Lua/Ssl.antt =====
-- plugins/samples/lua/envoy_lua_api.cc: `SslConnection`, whose methods read properties of the connection.
pub mod Laws
use service_extensions_sampl.Base.{
  Text, codes, ℕ, Bool, false, not, ◌||◌, Option, none, some, List, [], ◌∷◌, ◌++◌, ◌==◌, is_empty,
  has_value, if◌then◌else◌,
}
use service_extensions_sampl.Base.Int.{ℤ, pos}
use service_extensions_sampl.Lua.Status.{unimplemented, StatusOr, fine, error_of}
use service_extensions_sampl.Lua.Encoding.{base64_der_to_url_encoded_pem}

-- `getValue` at the three types that are read, and the functions of Abseil.
pub record Properties (S : Type 0) : Type 0 where
  pub get_string : List Text → S → Option Text
  pub get_bool : List Text → S → Option Bool
  pub get_uint64 : List Text → S → Option ℕ
  pub str_split : Text → ℕ → List Text
  pub base64_unescape : Text → Option Text
  pub ascii_str_to_lower : Text → Text
  -- `ParseTime(RFC3339_full, text)`, then `ToUnixSeconds`.
  pub parse_time : Text → Option ℤ

abbrev pub or_no_text : Option Text → Text
or_no_text none = []
or_no_text (some t) = t

-- A value that is there and is not empty.
abbrev pub not_empty : Option Text → Option Text
not_empty none = none
not_empty (some t) = if is_empty t then none else some t

abbrev pub or_no_certs : Option Text → (Text → List Text) → List Text
or_no_certs none f = []
or_no_certs (some t) f = f t

-- The methods that are not supported. A `ParsedName` has no fields: it is whether there is one.
abbrev unsupported : {A : Type 0} → Text → StatusOr A
unsupported name =
    error_of unimplemented (codes "Property SslConnection::" ++ name ++ codes " is unsupported.")

module _ {S : Type 0} (host : Properties S) where
  abbrev pub connection : Text → List Text
  connection name = codes "connection" ∷ name ∷ []

  unfoldable pub get_bool_value : Text → S → Bool
  get_bool_value name s = elim (host.get_bool (connection name) s) [
    | some out ↦ out
    | none ↦ elim (host.get_uint64 (connection name) s) [ some n ↦ not (n == 0) | none ↦ false ]
  ]

  abbrev or_epoch : Option ℤ → ℤ
  or_epoch none = pos 0
  or_epoch (some t) = t

  unfoldable pub fetch_timestamp_property : Text → S → ℤ
  fetch_timestamp_property name s = elim (not_empty (host.get_string (connection name) s)) [
    | none ↦ pos 0
    | some t ↦ or_epoch (host.parse_time t)
  ]

  -- Whether `GetSsl` and `GetDownstreamSslConnection` return a connection.
  unfoldable pub get_ssl : S → StatusOr Bool
  get_ssl s = fine (has_value (host.get_string (connection (codes "tls_version")) s))

  unfoldable pub peer_certificate_presented : S → StatusOr Bool
  unfolding get_bool_value
  peer_certificate_presented s =
      fine (get_bool_value (codes "mtls") s || get_bool_value (codes "client_cert_present") s)

  unfoldable pub peer_certificate_validated : S → StatusOr Bool
  unfolding get_bool_value
  peer_certificate_validated s = fine (
      get_bool_value (codes "peer_certificate_valid") s
      || get_bool_value (codes "client_cert_chain_verified") s)

  abbrev pub at_most_one : Option Text → List Text
  at_most_one none = []
  at_most_one (some t) = t ∷ []

  unfoldable pub get_uri_san_local_certificate : S → StatusOr (List Text)
  get_uri_san_local_certificate s =
      fine (
        at_most_one
          (not_empty (host.get_string (connection (codes "uri_san_local_certificate")) s)))

  -- `std::string out; getValue(path, &out); return out;`
  abbrev text_of : Text → S → StatusOr Text
  text_of name s = fine (or_no_text (host.get_string (connection name) s))

  unfoldable pub get_sha256_peer_certificate_digest : S → StatusOr Text
  get_sha256_peer_certificate_digest = text_of (codes "sha256_peer_certificate_digest")

  unfoldable pub get_serial_number_peer_certificate : S → StatusOr Text
  get_serial_number_peer_certificate = text_of (codes "client_cert_serial_number")

  unfoldable pub get_issuer_peer_certificate : S → StatusOr Text
  get_issuer_peer_certificate s = unsupported (codes "GetIssuerPeerCertificate")

  unfoldable pub get_sha256_peer_certificate_issuer_digest : S → StatusOr Text
  get_sha256_peer_certificate_issuer_digest s =
      unsupported (codes "GetSha256PeerCertificateIssuerDigest")

  unfoldable pub get_serial_number_peer_certificate_issuer : S → StatusOr Text
  get_serial_number_peer_certificate_issuer s =
      unsupported (codes "GetSerialNumberPeerCertificateIssuer")

  unfoldable pub get_subject_peer_certificate : S → StatusOr Text
  get_subject_peer_certificate = text_of (codes "subject_peer_certificate")

  -- The loops that decode the parts of a list.
  unfoldable pub decoded : List Text → List Text
  decoded [] = []
  decoded (san ∷ sans) =
      let rest = decoded sans in elim (host.base64_unescape san) [ some t ↦ t ∷ rest | none ↦ rest ]

  unfoldable pub decoded_sans : Option Text → List Text
  unfolding decoded
  decoded_sans out = or_no_certs (not_empty out) (λ t. decoded (host.str_split t 44))

  unfoldable pub get_uri_san_peer_certificate : S → StatusOr (List Text)
  unfolding decoded_sans
  get_uri_san_peer_certificate s =
      elim (not_empty (host.get_string (connection (codes "uri_san_peer_certificate")) s)) [
        | some out ↦ fine (out ∷ [])
        | none ↦ fine (
            decoded_sans (host.get_string (connection (codes "client_cert_uri_sans")) s)
            ++ at_most_one
                (not_empty (host.get_string (connection (codes "client_cert_spiffe_id")) s)))
      ]

  unfoldable pub get_subject_local_certificate : S → StatusOr Text
  get_subject_local_certificate = text_of (codes "subject_local_certificate")

  unfoldable pub get_url_encoded_pem_encoded_peer_certificate : S → StatusOr Text
  unfolding base64_der_to_url_encoded_pem
  get_url_encoded_pem_encoded_peer_certificate s =
      elim (not_empty (host.get_string (connection (codes "client_cert_leaf")) s)) [
        | some out ↦ fine (base64_der_to_url_encoded_pem out)
        | none ↦ fine []
      ]

  -- The loop over the certificates of a chain.
  unfoldable pub append_certs : List Text → Text
  unfolding base64_der_to_url_encoded_pem
  append_certs [] = []
  append_certs (cert ∷ certs) = base64_der_to_url_encoded_pem cert ++ append_certs certs

  unfoldable pub get_url_encoded_pem_encoded_peer_certificate_chain : S → StatusOr Text
  unfolding append_certs
  get_url_encoded_pem_encoded_peer_certificate_chain s = fine (
      append_certs
        (at_most_one (not_empty (host.get_string (connection (codes "client_cert_leaf")) s)))
      ++ append_certs (
          or_no_certs (not_empty (host.get_string (connection (codes "client_cert_chain")) s))
            (λ chain. host.str_split chain 44)))

  unfoldable pub get_dns_sans_peer_certificate : S → StatusOr (List Text)
  unfolding decoded_sans
  get_dns_sans_peer_certificate s =
      elim (not_empty (host.get_string (connection (codes "dns_san_peer_certificate")) s)) [
        | some out ↦ fine (out ∷ [])
        | none ↦
            fine (decoded_sans (host.get_string (connection (codes "client_cert_dnsname_sans")) s))
      ]

  unfoldable pub get_dns_sans_local_certificate : S → StatusOr (List Text)
  get_dns_sans_local_certificate s =
      fine (
        at_most_one
          (not_empty (host.get_string (connection (codes "dns_san_local_certificate")) s)))

  unfoldable pub get_valid_from_peer_certificate : S → StatusOr ℤ
  unfolding fetch_timestamp_property
  get_valid_from_peer_certificate s =
      fine (fetch_timestamp_property (codes "client_cert_valid_not_before") s)

  unfoldable pub get_expiration_peer_certificate : S → StatusOr ℤ
  unfolding fetch_timestamp_property
  get_expiration_peer_certificate s =
      fine (fetch_timestamp_property (codes "client_cert_valid_not_after") s)

  unfoldable pub get_ciphersuite_id : S → StatusOr Text
  get_ciphersuite_id s =
      elim (not_empty (host.get_string (connection (codes "tls_cipher_suite")) s)) [
        | some out ↦ fine (codes "0x" ++ host.ascii_str_to_lower out)
        | none ↦ fine []
      ]

  unfoldable pub get_tls_version : S → StatusOr Text
  get_tls_version = text_of (codes "tls_version")

  unfoldable pub get_parsed_subject_peer_certificate : S → StatusOr Bool
  get_parsed_subject_peer_certificate s = unsupported (codes "GetParsedSubjectPeerCertificate")

  unfoldable pub get_oids_peer_certificate : S → StatusOr (List Text)
  get_oids_peer_certificate s = unsupported (codes "GetOidsPeerCertificate")

  unfoldable pub get_oids_local_certificate : S → StatusOr (List Text)
  get_oids_local_certificate s = unsupported (codes "GetOidsLocalCertificate")

  unfoldable pub get_session_id : S → StatusOr Text
  get_session_id s = unsupported (codes "GetSessionId")

  unfoldable pub get_ciphersuite_string : S → StatusOr Text
  get_ciphersuite_string s = unsupported (codes "GetCiphersuiteString")
