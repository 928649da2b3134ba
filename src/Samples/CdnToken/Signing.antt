-- ===== src/Samples/CdnToken/Signing.antt =====
-- plugins/samples/cdn_token_generator/plugin.cc: replacing the URLs from the last to the
-- first, and the text with every URL signed.
use service_extensions_sampl.Base.{
  Text, ℕ, zero, suc, ◌+◌, ◌<◌, ◌≡◌, refl, ap, ◌∙◌, inl, inr, false, none, some, List, [], ◌∷◌,
  ◌++◌, append_assoc, arith, Option-cases, length, is_empty, length-append,
}
use service_extensions_sampl.Framework.Buffer.{replace}
use service_extensions_sampl.Framework.Buffer.Laws.{replace_part}
use service_extensions_sampl.Samples.CdnToken.{
  Root, Libraries, generate_signed_url, find_matches, replace_from_end,
}

-- What RE2 documents of `FindAndConsume`, for a pattern that matches no empty text.
abbrev pub IsFinder : Libraries → Type 0
IsFinder lib =
    (input before url rest : Text)
    → lib.find_and_consume input ≡ some (before, url, rest)
    → (input ≡ before ++ (url ++ rest)) × (0 < length url)

-- The text with every URL replaced by its signed form, from the first to the last.
pub data Signed (lib : Libraries) (sign : Text → Text) : Text → Text → Type 0 where
  no_url : (input : Text) → lib.find_and_consume input ≡ none → Signed lib sign input input
  next_url :
      (input before url rest out : Text)
      → lib.find_and_consume input ≡ some (before, url, rest)
      → Signed lib sign rest out
      → Signed lib sign input (before ++ (sign url ++ out))

-- The offset of the rest after a match, as a length.
rest_offset :
    (pre before url : Text)
    → length pre + length before + length url ≡ length (pre ++ (before ++ url))
rest_offset pre before url =
    omega (arith, length-append pre (before ++ url), length-append before url)

module _ (lib : Libraries) (sign : Text → Text) (finder : IsFinder lib)
    (signs : (u : Text) → 0 < length u → is_empty (sign u) ≡ false) where
  replace_match :
      (pre before url rest out : Text) (matches : List (ℕ × Text))
      → 0 < length url
      → replace_from_end sign ((pre ++ (before ++ url)) ++ rest) matches
        ≡ (pre ++ (before ++ url)) ++ out
      → replace_from_end sign
          (pre ++ (before ++ (url ++ rest)))
          ((length pre + length before, url) ∷ matches)
        ≡ pre ++ (before ++ (sign url ++ out))
  unfolding replace_from_end
  replace_match pre before url rest out matches h e =
      let shape : pre ++ (before ++ (url ++ rest)) ≡ (pre ++ (before ++ url)) ++ rest =
        simp append_assoc in
      let place : length pre + length before ≡ length (pre ++ before) =
        omega (arith, length-append pre before) in
      let cut : (pre ++ (before ++ url)) ++ out ≡ (pre ++ before) ++ (url ++ out) =
        simp append_assoc in
      let later : replace_from_end sign (pre ++ (before ++ (url ++ rest))) matches
          ≡ (pre ++ before) ++ (url ++ out) =
        ap (λ (t : Text). replace_from_end sign t matches) shape ∙ e ∙ cut in
      rw (signs url h) (
        (λ i. replace (later i) (place i) (length url) (sign url))
        ∙ replace_part (pre ++ before) url out (sign url)
        ∙ append_assoc pre before (sign url ++ out))

  Signed-from :
      (fuel : ℕ) (pre input : Text)
      → length input < fuel
      → (matches : List (ℕ × Text)) × (out : Text) × (find_matches lib fuel (length pre) input
          ≡ some matches)
        × (replace_from_end sign (pre ++ input) matches ≡ pre ++ out)
        × Signed lib sign input out
  unfolding find_matches
  Signed-from zero pre input h = absurd (omega arith)
  Signed-from (suc fuel) pre input h = elim (Option-cases (lib.find_and_consume input)) [
    | inl e ↦ ([], input, rw (e, find_matches), unfold replace_from_end in refl, no_url input e)
    | inr ((before, u, rest), e) ↦
        let found = finder input before u rest e in
        let ih = Signed-from fuel (pre ++ (before ++ u)) rest (
          omega
            (arith, ap length found.0, length-append before (u ++ rest), length-append u rest)) in
        (
          (length pre + length before, u) ∷ ih.0,
          before ++ (sign u ++ ih.1),
          rw (e, find_matches, rest_offset pre before u, ih.2),
          rw found.0 (replace_match pre before u rest ih.1 ih.0 found.1 ih.3),
          next_url input before u rest ih.1 e ih.4,
        )
  ]

-- A signed URL begins with the URL, so it is not empty.
generate_signed_url_ne :
    (lib : Libraries) (root : Root) (now : ℕ) (u : Text)
    → 0 < length u
    → is_empty (generate_signed_url lib root now u) ≡ false
unfolding generate_signed_url
generate_signed_url_ne lib root now [] h = absurd (omega arith)
generate_signed_url_ne lib root now (c ∷ u) h = refl

-- For every body the search for URLs ends within the fuel, and replacing its matches from the last
-- one to the first gives the body with every URL replaced by its signed form, whatever the lengths
-- of the signed URLs.
pub replace_from_end-Signed :
    (lib : Libraries) (root : Root) (now : ℕ) (body : Text)
    → IsFinder lib
    → (matches : List (ℕ × Text)) × (out : Text) × (find_matches lib (suc (length body)) 0 body
        ≡ some matches)
      × (replace_from_end (generate_signed_url lib root now) body matches ≡ out)
      × Signed lib (generate_signed_url lib root now) body out
replace_from_end-Signed lib root now body finder =
    Signed-from lib (generate_signed_url lib root now) finder (generate_signed_url_ne lib root now)
      (suc (length body)) [] body (omega arith)
