-- ===== src/Samples/ConfigDenylist/Words.antt =====
-- plugins/samples/config_denylist/plugin.cc: the tokens that the configuration loop collects,
-- and the words of the configuration.
use service_extensions_sampl.Base.{
  Text, ℕ, zero, suc, ◌≤◌, ◌<◌, ◌≡◌, refl, ◌∙◌, inl, inr, Bool, ◌||◌, none, some, List, [], ◌∷◌,
  ◌++◌, append-nil, append_assoc, arith, if◌then◌else◌, Bool-cases, Option-cases, length, take,
  drop, any, length-drop, text_eq, text_eq_iff, has_text,
}
use service_extensions_sampl.Samples.ConfigDenylist.{
  is_delimiter, find_first_of, insert_token, parse_loop,
}

-- The words of a text, read byte by byte: `word` holds the bytes since the last delimiter.
abbrev flush : Text → List Text
flush [] = []
flush (c ∷ word) = (c ∷ word) ∷ []

pub words_from : Text → Text → List Text
words_from word [] = flush word
words_from word (c ∷ s) =
    if is_delimiter c then flush word ++ words_from [] s else words_from (word ++ c ∷ []) s

unfoldable pub words : Text → List Text
unfolding words_from
words = words_from []

any-append {ℓ} :
    {A : Type ℓ} (p : A → Bool) (xs ys : List A) → any p (xs ++ ys) ≡ (any p xs || any p ys)
any-append p [] ys = refl
any-append p (x ∷ xs) ys = ground (arith, any-append p xs ys)

-- Inserting a token adds it to what the set has, and nothing else.
has_text-insert_token :
    (t u : Text) (tokens : List Text)
    → has_text t (insert_token u tokens) ≡ (text_eq t u || has_text t tokens)
unfolding insert_token
has_text-insert_token t u tokens = elim (Bool-cases (has_text u tokens)) [
  | inl e ↦ rw e (elim (Bool-cases (text_eq t u)) [
    | inl g ↦ rw g (rw ((text_eq_iff t u).0 g) e)
    | inr g ↦ rw g
  ])
  | inr e ↦ rw e
]

-- Without a delimiter the rest of the text goes on with the word.
words_from-no_delimiter :
    (word s : Text) → find_first_of s ≡ none → words_from word s ≡ flush (word ++ s)
unfolding words_from find_first_of
words_from-no_delimiter word [] e = rw append-nil
words_from-no_delimiter word (c ∷ s) e = elim (Bool-cases (is_delimiter c)) [
  | inl d ↦ absurd (ground arith)
  | inr d ↦ rw d (words_from-no_delimiter (word ++ c ∷ []) s (ground arith) ∙ rw append_assoc)
]

-- Up to the first delimiter the bytes belong to the word; after it a new word begins.
words_from-delimiter :
    (word s : Text) (n : ℕ)
    → find_first_of s ≡ some n
    → words_from word s ≡ flush (word ++ take n s) ++ words_from [] (drop (suc n) s)
unfolding words_from find_first_of
words_from-delimiter word [] n e = absurd (cc)
words_from-delimiter word (c ∷ s) n e = elim (Bool-cases (is_delimiter c)) [
  | inl d ↦ let first : zero ≡ n = ground arith in rw (d, ← first, append-nil)
  | inr d ↦ elim (Option-cases (find_first_of s)) [
    | inl g ↦ absurd (ground arith)
    | inr (m, g) ↦
        let later : suc m ≡ n = ground arith in
        rw (d, ← later) (words_from-delimiter (word ++ c ∷ []) s m g ∙ rw append_assoc)
  ]
]

find_first_of-le : (s : Text) (n : ℕ) → find_first_of s ≡ some n → n < length s
unfolding find_first_of
find_first_of-le [] n e = absurd (cc)
find_first_of-le (c ∷ s) n e = elim (Option-cases (find_first_of s)) [
  | inl g ↦ ground arith
  | inr (m, g) ↦ ground (arith, find_first_of-le s m g)
]

-- With fuel for every byte the loop ends, and the set then has the tokens from before and the words
-- of the text.
parse_loop-words :
    (fuel : ℕ) (rest : Text) (tokens : List Text)
    → length rest ≤ fuel
    → (found : List Text) × (parse_loop fuel rest tokens ≡ some found)
      × ((t : Text) → has_text t found ≡ (has_text t tokens || has_text t (words_from [] rest)))
unfolding parse_loop
parse_loop-words fuel [] tokens h = (tokens, refl, λ t. unfold words_from in ground arith)
parse_loop-words zero (c ∷ rest) tokens h = absurd (omega arith)
parse_loop-words (suc fuel) (c ∷ rest) tokens h = elim (Option-cases (find_first_of (c ∷ rest))) [
  | inl e ↦ (
    insert_token (c ∷ rest) tokens,
    rw (e, parse_loop),
    λ t.
        rw (words_from-no_delimiter [] (c ∷ rest) e)
          (ground (arith, has_text-insert_token t (c ∷ rest) tokens)),
  )
  | inr (zero, e) ↦
      let ih = parse_loop-words fuel rest tokens (omega arith) in
      (ih.0, rw (e, parse_loop) ih.1, λ t. rw (words_from-delimiter [] (c ∷ rest) zero e) (ih.2 t))
  | inr (suc n, e) ↦
      let word : Text = c ∷ take n rest in
      let ih =
        parse_loop-words fuel (drop (suc n) rest) (insert_token word tokens)
          (omega (arith, length-drop (suc n) rest)) in
      (
        ih.0,
        rw (e, parse_loop) ih.1,
        λ t.
            rw (words_from-delimiter [] (c ∷ rest) (suc n) e)
              (ground (arith, ih.2 t, has_text-insert_token t word tokens)),
      )
]

-- The loop ends, and a text is among its tokens exactly if it is a word of the configuration.
pub parse_loop-has_text :
    (config : Text)
    → (found : List Text) × (parse_loop (length config) config [] ≡ some found)
      × ((t : Text) → has_text t found ≡ has_text t (words config))
unfolding words
parse_loop-has_text config = parse_loop-words (length config) config [] (omega arith)
