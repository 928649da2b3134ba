-- ===== src/Lua/Encoding/Laws.antt =====
-- plugins/samples/lua/envoy_lua_api.cc: the encoding can be undone, and the PEM form has the certificate in
-- lines of at most 64 bytes.
use native.Mathlib.Nat.{zero-add, suc-add}
use service_extensions_sampl.Base.{
  Text, ℕ, zero, suc, ◌+◌, ◌-◌, ◌*◌, ◌/◌, ◌%◌, ◌≤◌, ◌<◌, ◌≡◌, refl, sym, ap, ◌∙◌, inl, inr, true,
  false, ◌||◌, List, [], ◌∷◌, ◌++◌, arith, ltb, ◌==◌, if◌then◌else◌, Bool-cases, length, take, drop,
  All, take-append-drop, length-take, length-drop, drop-all, codes,
}
use service_extensions_sampl.Lua.Encoding.{
  is_unreserved, hex_digit, url_encode, strip_prefix, strip_suffix, pem_lines, to_pem,
  base64_der_to_url_encoded_pem,
}

-- The value of an upper-case hexadecimal digit.
abbrev pub hex_value : ℕ → ℕ
hex_value d = if ltb d 65 then d - 48 else d - 55

-- Percent decoding, as RFC 3986 describes it.
unfoldable pub url_decode : Text → Text
url_decode [] = []
url_decode (c ∷ []) = c ∷ []
url_decode (c ∷ d ∷ []) = c ∷ d ∷ []
url_decode (c ∷ d ∷ e ∷ text) =
    if c == 37
    then (hex_value d * 16 + hex_value e) ∷ url_decode text
    else c ∷ url_decode (d ∷ e ∷ text)

abbrev pub IsByte : ℕ → Type 0
IsByte c = c < 256

url_decode-plain : (c : ℕ) (t : Text) → (c == 37) ≡ false → url_decode (c ∷ t) ≡ c ∷ url_decode t
unfolding url_decode
url_decode-plain c [] h = refl
url_decode-plain c (d ∷ []) h = refl
url_decode-plain c (d ∷ e ∷ t) h = rw h refl

hex_byte :
    (c : ℕ) → c < 256 → hex_value (hex_digit (c / 16)) * 16 + hex_value (hex_digit (c % 16)) ≡ c
hex_byte c h = ground arith

url_decode-escape :
    (c : ℕ) (t : Text)
    → c < 256
    → url_decode (37 ∷ hex_digit (c / 16) ∷ hex_digit (c % 16) ∷ t) ≡ c ∷ url_decode t
unfolding url_decode
url_decode-escape c t h = ap (λ d. d ∷ url_decode t) (hex_byte c h)

-- Decoding gives back what was encoded, if it is a text of bytes.
pub url_decode-url_encode : (t : Text) → All IsByte t → url_decode (url_encode t) ≡ t
unfolding url_encode
url_decode-url_encode [] h = unfold url_decode in refl
url_decode-url_encode (c ∷ t) h = elim (Bool-cases (is_unreserved c)) [
  | inl e ↦ rw e (
      url_decode-plain c (url_encode t) (ground (arith, e))
      ∙ ap (λ l. c ∷ l) (url_decode-url_encode t h.1))
  | inr e ↦
      rw e (url_decode-escape c (url_encode t) h.0 ∙ ap (λ l. c ∷ l) (url_decode-url_encode t h.1))
]

abbrev pub IsUrlByte : ℕ → Type 0
IsUrlByte c = (is_unreserved c || c == 37) ≡ true

hex_digit-IsUrlByte : (n : ℕ) → n < 16 → IsUrlByte (hex_digit n)
hex_digit-IsUrlByte n h = ground (arith, h)

-- What is encoded has only unreserved characters and percent signs.
pub url_encode-IsUrlByte : (t : Text) → All IsByte t → All IsUrlByte (url_encode t)
unfolding url_encode
url_encode-IsUrlByte [] h = tt
url_encode-IsUrlByte (c ∷ t) h = elim (Bool-cases (is_unreserved c)) [
  | inl e ↦ rw e (rw e refl, url_encode-IsUrlByte t h.1)
  | inr e ↦
      let high = hex_digit-IsUrlByte (c / 16) (omega (arith, h.0)) in
      let low = hex_digit-IsUrlByte (c % 16) (omega arith) in
      rw e (refl, (high, (low, url_encode-IsUrlByte t h.1)))
]

-- Lines, each with its end, and lines without.
abbrev pub with_ends : List Text → Text
with_ends [] = []
with_ends (l ∷ ls) = l ++ 10 ∷ with_ends ls

abbrev pub joined : List Text → Text
joined [] = []
joined (l ∷ ls) = l ++ joined ls

abbrev pub IsLine : Text → Type 0
IsLine l = (0 < length l) × (length l ≤ 64)

drop-drop : (m i : ℕ) (t : Text) → drop m (drop i t) ≡ drop (i + m) t
drop-drop m zero t = rw zero-add refl
drop-drop m (suc i) [] = rw suc-add (drop-all m [] (omega arith))
drop-drop m (suc i) (c ∷ t) = rw suc-add (drop-drop m i t)

line : (i : ℕ) (t : Text) → i < length t → IsLine (take 64 (drop i t))
line i t h = (
  omega (arith, h, length-take 64 (drop i t), length-drop i t),
  omega (arith, length-take 64 (drop i t)),
)

pem_lines-lines :
    (fuel : ℕ) (der : Text) (i : ℕ)
    → length der ≤ fuel + i
    → (ls : List Text) × (pem_lines fuel der i ≡ with_ends ls)
      × (joined ls ≡ drop i der)
      × All IsLine ls
unfolding pem_lines
pem_lines-lines zero der i h = ([], refl, sym (drop-all i der (omega (arith, h))), tt)
pem_lines-lines (suc fuel) der i h = elim (Bool-cases (ltb i (length der))) [
  | inl e ↦
      let (ls, p, q, r) = pem_lines-lines fuel der (i + 64) (omega (arith, h)) in
      (
        take 64 (drop i der) ∷ ls,
        rw e (ap (λ t. take 64 (drop i der) ++ 10 ∷ t) p),
        ap (λ t. take 64 (drop i der) ++ t) (q ∙ sym (drop-drop 64 i der))
            ∙ take-append-drop 64 (drop i der),
        (line i der (ground (arith, e)), r),
      )
  | inr e ↦ ([], rw e refl, sym (drop-all i der (ground (arith, e))), tt)
]

-- The PEM form of a certificate is the first line, the certificate in lines of 1 to 64 bytes, and the
-- last line; decoding the encoded form gives it back.
pub pem-lines :
    (b64_der : Text)
    → All IsByte (to_pem b64_der)
    → (ls : List Text) × (url_decode (base64_der_to_url_encoded_pem b64_der)
        ≡ (codes "-----BEGIN CERTIFICATE-----\n" ++ with_ends ls)
          ++ codes "-----END CERTIFICATE-----\n")
      × (joined ls ≡ strip_suffix (strip_prefix b64_der))
      × All IsLine ls
unfolding base64_der_to_url_encoded_pem to_pem
pem-lines b64_der h =
    let der = strip_suffix (strip_prefix b64_der) in
    let (ls, p, q, r) = pem_lines-lines (length der) der 0 (omega arith) in
    (
      ls,
      url_decode-url_encode (to_pem b64_der) h
          ∙ ap
              (λ t.
                (codes "-----BEGIN CERTIFICATE-----\n" ++ t) ++ codes "-----END CERTIFICATE-----\n")
              p,
      q,
      r,
    )
