-- ===== src/Framework/Expectation/Matchers.antt =====
-- plugins/test/dynamic_test.cc: when no failure is added, and which texts a matcher finds.
use mathlib.Core.Path.{subst}
use service_extensions_sampl.Base.{
  Text, ◌≡◌, ◌↔◌, ◌⊎◌, inl, inr, refl, Bool, true, false, not, none, some, List, [], ◌∷◌, ◌++◌,
  if◌then◌else◌, text_eq_iff, All, if-cases,
}
use service_extensions_sampl.Framework.Expectation.{
  Pattern, exact, regex, file, unset, Matching, Outside, StringMatcher, Failure, create,
  read_content, matches_one, matches, report, find_string, find_strings,
}

-- The failures are none exactly if the statement holds.
abbrev pub Decides : List Failure → Type 0 → Type 0
Decides fs P = (fs ≡ []) ↔ P

pub one_more-Decides : (f : Failure) (fs : List Failure) (P : Type 0) → (P → ⊥) → Decides (f ∷ fs) P
one_more-Decides f fs P h = (λ e. cc, λ p. absurd (h p))

pub append-Decides :
    (fs gs : List Failure) (P Q : Type 0) → Decides fs P → Decides gs Q → Decides (fs ++ gs) (P × Q)
append-Decides [] gs P Q h k = (λ e. (h.0 refl, k.0 e), λ p. k.1 p.1)
append-Decides (f ∷ fs) gs P Q h k =
    one_more-Decides f (fs ++ gs) (P × Q) (λ p. let e = h.1 p.0 in cc)

Sum-cases : {A B : Type 0} (x : A ⊎ B) → ((a : A) × (x ≡ inl a)) ⊎ ((b : B) × (x ≡ inr b))
Sum-cases (inl a) = inl (a, refl)
Sum-cases (inr b) = inr (b, refl)

-- Some text is a `P`.
abbrev pub SomeFits : (Text → Type 0) → List Text → Type 0
SomeFits P [] = ⊥
SomeFits P (x ∷ xs) = P x ⊎ SomeFits P xs

-- Some text is a `P`, or with the flag none is.
abbrev pub Occurs : (Text → Type 0) → Bool → List Text → Type 0
Occurs P true contents = All (λ x. P x → ⊥) contents
Occurs P false contents = SomeFits P contents

module _ {R : Type 0} (o : Outside R) (test_path : Text) where
  -- The file that a pattern names: relative to the test.
  abbrev pub resolved : Text → Text
  resolved path = if o.is_absolute path then path else o.slash (o.parent_path test_path) path

  -- The texts meet a pattern: it is a text, the content of a file that can be read, or an expression
  -- that compiles, and it fits some of them, or with `invert` none.
  abbrev pub FoundAs : Bool → List Text → Pattern → Type 0
  FoundAs invert contents (exact t) = Occurs (λ x. x ≡ t) invert contents
  FoundAs invert contents (file path) =
      (t : Text) × (o.read_data_file (resolved path) ≡ inr t) × Occurs (λ x. x ≡ t) invert contents
  FoundAs invert contents (regex r) =
      (re : R) × (o.compile r ≡ inr re) × Occurs (λ x. o.full_match x re ≡ true) invert contents
  FoundAs invert contents unset = ⊥

  abbrev pub Found : List Text → Matching → Type 0
  Found contents e = FoundAs e.invert contents e.pattern

  -- The loop of `Matches` decides whether a text fits, for a matcher that tests `P`.
  module _ (m : StringMatcher R) (P : Text → Type 0)
      (fits : (x : Text) → (matches_one o test_path m x ≡ true) ↔ P x) where
    matches-SomeFits :
        (contents : List Text)
        → m.invert ≡ false
        → (matches o test_path m contents ≡ true) ↔ SomeFits P contents
    unfolding matches
    matches-SomeFits [] e = (λ h. cc, λ p. absurd p)
    matches-SomeFits (x ∷ xs) e =
        let ih = matches-SomeFits xs e in
        if-cases (λ b. (b ≡ true) ↔ (P x ⊎ SomeFits P xs)) (matches_one o test_path m x) _ _
          (λ t. (λ h. inl ((fits x).0 t), λ p. rw e refl))
          (λ t. (
            λ h. inr (ih.0 h),
            λ p. elim p [ inl q ↦ let y = (fits x).1 q in absurd cc | inr q ↦ ih.1 q ],
          ))

    matches-none_fits :
        (contents : List Text)
        → m.invert ≡ true
        → (matches o test_path m contents ≡ true) ↔ All (λ x. P x → ⊥) contents
    unfolding matches
    matches-none_fits [] e = (λ h. tt, λ p. e)
    matches-none_fits (x ∷ xs) e =
        let ih = matches-none_fits xs e in
        if-cases (λ b. (b ≡ true) ↔ ((P x → ⊥) × All (λ x. P x → ⊥) xs))
          (matches_one o test_path m x) _ _
          (λ t. (
            λ h. let y : not m.invert ≡ false = rw e refl in absurd cc,
            λ p. absurd (p.0 ((fits x).0 t)),
          ))
          (λ t. (λ h. (λ q. let y = (fits x).1 q in cc, ih.0 h), λ p. ih.1 p.1))

    matches-Occurs :
        (invert : Bool) (contents : List Text)
        → m.invert ≡ invert
        → (matches o test_path m contents ≡ true) ↔ Occurs P invert contents
    matches-Occurs true contents e = matches-none_fits contents e
    matches-Occurs false contents e = matches-SomeFits contents e

    report-Decides :
        (type : Text) (e : Matching) (contents : List Text)
        → Decides (report o test_path type e contents (inr m)) (Occurs P m.invert contents)
    report-Decides type e contents =
        let k = matches-Occurs m.invert contents refl in
        if-cases (λ fs. Decides fs (Occurs P m.invert contents)) (matches o test_path m contents) _
          _ (λ t. (λ f. k.0 t, λ p. refl))
          (λ t. one_more-Decides _ [] (Occurs P m.invert contents) (λ p. let q = k.1 p in cc))

  -- A matcher for a text, as `create` makes it, tests for that text.
  exact-Decides :
      (type : Text) (e : Matching) (contents : List Text) (invert : Bool) (t : Text)
      → let m : StringMatcher R = record { invert = invert; exact = t; re = none } in
        Decides (report o test_path type e contents (inr m)) (Occurs (λ x. x ≡ t) invert contents)
  exact-Decides type e contents invert t =
      report-Decides (record { invert = invert; exact = t; re = none }) (λ x. x ≡ t)
        (λ x. text_eq_iff x t) type e contents

  pattern-Decides :
      (type : Text) (invert : Bool) (contents : List Text) (p : Pattern)
      → Decides
          (find_string o test_path type (record { invert = invert; pattern = p }) contents)
          (FoundAs invert contents p)
  unfolding find_string create read_content
  pattern-Decides type invert contents (exact t) =
      exact-Decides type (record { invert = invert; pattern = exact t }) contents invert t
  pattern-Decides type invert contents (file path) =
      elim (Sum-cases (o.read_data_file (resolved path))) [
        | inl (e, c) ↦
            rw (find_string, create, read_content, c)
              (one_more-Decides _ [] _ (λ p. let q = p.1 in cc))
        | inr (t, c) ↦
            let k =
              exact-Decides type (record { invert = invert; pattern = file path }) contents invert
                t in
            rw (find_string, create, read_content, c)
              (
                λ h. (t, refl, k.0 h),
                λ (u, q, p). k.1 (
                    subst (λ y. Occurs (λ x. x ≡ y) invert contents) (let same : u ≡ t = cc in same)
                      p),
              )
      ]
  pattern-Decides type invert contents (regex r) = elim (Sum-cases (o.compile r)) [
    | inl (e, c) ↦ rw (find_string, create, c) (one_more-Decides _ [] _ (λ p. let q = p.1 in cc))
    | inr (re, c) ↦
        let m : StringMatcher R = record { invert = invert; exact = []; re = some re } in
        let k =
          report-Decides m (λ x. o.full_match x re ≡ true) (λ x. (λ h. h, λ h. h)) type
            (record { invert = invert; pattern = regex r }) contents in
        rw (find_string, create, c)
          (
            λ h. (re, refl, k.0 h),
            λ (u, q, p). k.1 (
                subst (λ y. Occurs (λ x. o.full_match x y ≡ true) invert contents)
                  (let same : u ≡ re = cc in same) p),
          )
  ]
  pattern-Decides type invert contents unset = one_more-Decides _ [] ⊥ (λ p. p)

  find_string-Decides :
      (type : Text) (e : Matching) (contents : List Text)
      → Decides (find_string o test_path type e contents) (Found contents e)
  find_string-Decides type e contents = pattern-Decides type e.invert contents e.pattern

  pub find_strings-Decides :
      (type : Text) (es : List Matching) (contents : List Text)
      → Decides (find_strings o test_path type es contents) (All (Found contents) es)
  find_strings-Decides type [] contents = (λ f. tt, λ p. refl)
  find_strings-Decides type (e ∷ es) contents =
      append-Decides _ _ _ _ (find_string-Decides type e contents)
        (find_strings-Decides type es contents)
