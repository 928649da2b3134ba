-- ===== src/Lua/Encoding.antt =====
-- plugins/samples/lua/envoy_lua_api.cc: the URL encoding, and the PEM form of a certificate. The loop
-- over the lines has the length of the text as fuel; each round moves on by 64 bytes.
pub mod Laws
use service_extensions_sampl.Base.{
  Text, codes, ℕ, zero, suc, ◌+◌, ◌/◌, ◌%◌, Bool, ◌&&◌, ◌||◌, [], ◌∷◌, ◌++◌, leb, ltb, ◌==◌,
  if◌then◌else◌, length, take, drop,
}

-- `absl::ascii_isalnum`
abbrev pub is_alnum : ℕ → Bool
is_alnum c = leb 48 c && leb c 57 || leb 65 c && leb c 90 || leb 97 c && leb c 122

abbrev pub is_unreserved : ℕ → Bool
is_unreserved c = is_alnum c || c == 45 || c == 95 || c == 46 || c == 126

-- A digit of `%02X`.
abbrev pub hex_digit : ℕ → ℕ
hex_digit n = if ltb n 10 then 48 + n else 55 + n

unfoldable pub url_encode : Text → Text
url_encode [] = []
url_encode (c ∷ value) =
    let rest = url_encode value in
    if is_unreserved c then c ∷ rest else 37 ∷ hex_digit (c / 16) ∷ hex_digit (c % 16) ∷ rest

-- `StripPrefix(text, ":")` and `StripSuffix(text, ":")`
abbrev pub strip_prefix : Text → Text
strip_prefix [] = []
strip_prefix (c ∷ text) = if c == 58 then text else c ∷ text

unfoldable pub strip_suffix : Text → Text
strip_suffix [] = []
strip_suffix (c ∷ []) = if c == 58 then [] else c ∷ []
strip_suffix (c ∷ d ∷ text) = c ∷ strip_suffix (d ∷ text)

-- The `for` loop, from an index on.
unfoldable pub pem_lines : ℕ → Text → ℕ → Text
pem_lines zero der i = []
pem_lines (suc fuel) der i =
    let rest = pem_lines fuel der (i + 64) in
    if ltb i (length der) then take 64 (drop i der) ++ 10 ∷ rest else []

unfoldable pub to_pem : Text → Text
unfolding strip_suffix pem_lines
to_pem b64_der =
    let der = strip_suffix (strip_prefix b64_der) in
    (codes "-----BEGIN CERTIFICATE-----\n" ++ pem_lines (length der) der 0)
    ++ codes "-----END CERTIFICATE-----\n"

unfoldable pub base64_der_to_url_encoded_pem : Text → Text
unfolding url_encode to_pem
base64_der_to_url_encoded_pem b64_der = url_encode (to_pem b64_der)
