-- ===== src/Samples/AdInsertion/Insert/Laws.antt =====
-- plugins/samples/ad_insertion/plugin.cc: insertions from the last position to the first, and
-- the positions of the original body.
use service_extensions_sampl.Base.{
  Text, ℕ, zero, suc, ◌+◌, ◌≤◌, ◌≡◌, refl, ap, ◌∙◌, inl, inr, not, ◌&&◌, List, [], ◌∷◌, ◌++◌,
  append_assoc, arith, Bool-cases, Option-cases, length, take, drop, All, length-append,
  length-take, length-drop, codes, find, find_bounds,
}
use service_extensions_sampl.Samples.AdInsertion.{AdConfig, Root, Insertion}
use mathlib.Core.List.{Permᴰ}
use service_extensions_sampl.Samples.AdInsertion.Insert.{
  is_gpt_already_loaded, insert, insert_each, prepare_gpt_library_injection, prepare_ad_insertion,
  prepare_ads, prepare,
}

-- Every position lies in a body of the given length.
abbrev pub InRange : ℕ → List Insertion → Type 0
InRange n l = All (λ e. e.0 ≤ n) l

-- Each position is at most the one before it: the order that `std::sort` is asked for.
abbrev pub IsDescending : List Insertion → Type 0
IsDescending [] = Unit
IsDescending ((p, c) ∷ l) = InRange p l × IsDescending l

-- Each content stands at its position of the original body: what comes after the first position of
-- the list is copied, and the rest of the list belongs to what comes before.
abbrev pub spread : Text → List Insertion → Text
spread body [] = body
spread body ((p, c) ∷ l) = spread (take p body) l ++ (c ++ drop p body)

abbrev pub inserted_length : List Insertion → ℕ
inserted_length [] = 0
inserted_length ((p, c) ∷ l) = length c + inserted_length l

take-append : (n : ℕ) (s t : Text) → n ≤ length s → take n (s ++ t) ≡ take n s
take-append zero s t h = refl
take-append (suc n) [] t h = absurd (omega arith)
take-append (suc n) (c ∷ s) t h = ap (λ l. c ∷ l) (take-append n s t (omega arith))

drop-append : (n : ℕ) (s t : Text) → n ≤ length s → drop n (s ++ t) ≡ drop n s ++ t
drop-append zero s t h = refl
drop-append (suc n) [] t h = absurd (omega arith)
drop-append (suc n) (c ∷ s) t h = drop-append n s t (omega arith)

insert-append : (s t c : Text) (p : ℕ) → p ≤ length s → insert (s ++ t) p c ≡ insert s p c ++ t
unfolding insert
insert-append s t c p h = rw (take-append p s t h, drop-append p s t h) (simp append_assoc)

length-insert : (s c : Text) (p : ℕ) → length (insert s p c) ≡ length s + length c
unfolding insert
length-insert s c p = omega (
  arith,
  length-append (take p s) (c ++ drop p s),
  length-append c (drop p s),
  length-take p s,
  length-drop p s,
)

InRange-mono : (m n : ℕ) (l : List Insertion) → m ≤ n → InRange m l → InRange n l
InRange-mono m n [] h r = tt
InRange-mono m n ((p, c) ∷ l) h r = (omega arith, InRange-mono m n l h r.1)

insert_each-append :
    (s t : Text) (l : List Insertion)
    → InRange (length s) l
    → insert_each (s ++ t) l ≡ insert_each s l ++ t
unfolding insert_each
insert_each-append s t [] r = refl
insert_each-append s t ((p, c) ∷ l) r = rw (insert-append s t c p r.0) (
    insert_each-append (insert s p c) t l
      (InRange-mono (length s) _ l (omega (arith, length-insert s c p)) r.1))

-- Applied in descending order, the insertions spread over the original body: no insertion moves
-- the place of a later one.
pub insert_each-spread :
    (body : Text) (l : List Insertion)
    → IsDescending l
    → InRange (length body) l
    → insert_each body l ≡ spread body l
unfolding insert_each insert
insert_each-spread body [] d r = refl
insert_each-spread body ((p, c) ∷ l) d r =
    let short : length (take p body) ≡ p = omega (arith, length-take p body) in
    let before : InRange (length (take p body)) l = rw short d.0 in
    insert_each-append (take p body) (c ++ drop p body) l before
    ∙ ap (λ (t : Text). t ++ (c ++ drop p body)) (insert_each-spread (take p body) l d.1 before)

-- The result is longer than the body by exactly what was inserted.
pub length-insert_each :
    (body : Text) (l : List Insertion)
    → length (insert_each body l) ≡ length body + inserted_length l
unfolding insert_each
length-insert_each body [] = omega arith
length-insert_each body ((p, c) ∷ l) =
    omega (arith, length-insert_each (insert body p c) l, length-insert body c p)

InRange-append : (n : ℕ) (l m : List Insertion) → InRange n l → InRange n m → InRange n (l ++ m)
InRange-append n [] m h k = k
InRange-append n (e ∷ l) m h k = (h.0, InRange-append n l m h.1 k)

length-head : length (codes "<head>") ≡ 6
unfolding codes
length-head = refl

gpt-InRange :
    (root : Root) (body : Text) → InRange (length body) (prepare_gpt_library_injection root body)
unfolding prepare_gpt_library_injection
gpt-InRange root body = elim (Option-cases (find body (codes "<head>"))) [
  | inr (n, e) ↦
      rw (e, prepare_gpt_library_injection)
        (omega (arith, find_bounds body (codes "<head>") n e, length-head), tt)
  | inl e ↦ elim (Option-cases (find body (codes "<body>"))) [
    | inr (n, g) ↦
        rw (e, g, prepare_gpt_library_injection)
          (omega (arith, find_bounds body (codes "<body>") n g), tt)
    | inl g ↦ rw (e, g, prepare_gpt_library_injection) tt
  ]
]

ad-InRange :
    (body position : Text) (config : AdConfig)
    → InRange (length body) (prepare_ad_insertion body position config)
unfolding prepare_ad_insertion
ad-InRange body position config = elim (Option-cases (find body config.marker)) [
  | inl e ↦ rw (e, prepare_ad_insertion) tt
  | inr (n, e) ↦
      rw (e, prepare_ad_insertion) (ground (arith, find_bounds body config.marker n e), tt)
]

ads-InRange :
    (body : Text) (configs : List (Text × AdConfig))
    → InRange (length body) (prepare_ads body configs)
unfolding prepare_ads
ads-InRange body [] = tt
ads-InRange body ((position, config) ∷ configs) =
    InRange-append (length body) (prepare_ad_insertion body position config)
      (prepare_ads body configs) (ad-InRange body position config) (ads-InRange body configs)

-- Every insertion that a body calls for lies inside it, so `std::string::insert` never throws.
pub prepare-InRange : (root : Root) (body : Text) → InRange (length body) (prepare root body)
unfolding prepare
prepare-InRange root body =
    elim (Bool-cases (root.inject_gpt_library && not (is_gpt_already_loaded body))) [
      | inl e ↦ rw e (
          InRange-append (length body) (prepare_gpt_library_injection root body)
            (prepare_ads body root.ad_configs) (gpt-InRange root body)
            (ads-InRange body root.ad_configs))
      | inr e ↦ rw e (ads-InRange body root.ad_configs)
    ]

pub Permᴰ-InRange : (n : ℕ) (l m : List Insertion) → Permᴰ l m → InRange n m → InRange n l
Permᴰ-InRange n l m Permᴰ.nil h = tt
Permᴰ-InRange n l m (Permᴰ.cons e p) h = (rw e h.0, Permᴰ-InRange n _ _ p h.1)
Permᴰ-InRange n l m (Permᴰ.swap e f) h = (rw e h.1.0, (rw f h.0, h.1.1))
Permᴰ-InRange n l m (Permᴰ.trans {l₂ = k} p q) h = Permᴰ-InRange n l k p (Permᴰ-InRange n k m q h)

pub Permᴰ-inserted_length :
    (l m : List Insertion) → Permᴰ l m → inserted_length l ≡ inserted_length m
Permᴰ-inserted_length l m Permᴰ.nil = refl
Permᴰ-inserted_length l m (Permᴰ.cons {l₁} {l₂} e p) =
    rw e (ground (arith, Permᴰ-inserted_length l₁ l₂ p))
Permᴰ-inserted_length l m (Permᴰ.swap e f) = rw (e, f) (omega arith)
Permᴰ-inserted_length l m (Permᴰ.trans {l₂ = k} p q) =
    Permᴰ-inserted_length l k p ∙ Permᴰ-inserted_length k m q
