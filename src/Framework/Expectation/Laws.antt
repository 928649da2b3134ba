-- ===== src/Framework/Expectation/Laws.antt =====
-- plugins/test/dynamic_test.cc: when a phase meets its expectation.
use service_extensions_sampl.Base.{
  Text, ℕ, ◌≡◌, ◌≢◌, ◌↔◌, refl, Bool, true, false, not, Option, none, some, List, [], ◌∷◌, ◌==◌,
  ==_iff, text_eq, text_eq_iff, is_empty, map, All, arith, if-cases,
}
use service_extensions_sampl.Framework.Headers.{Headers, lookup}
use service_extensions_sampl.Framework.Stream.{Result}
use service_extensions_sampl.Framework.Expectation.{
  Header, Immediate, Expectation, Outside, Failure, header_line, is_continue, expect_number,
  expect_text, unless_differ, found_header, left_header, check_has_headers, check_no_headers,
  check_immediate, check_phase_results, wrong_http_status, wrong_grpc_status, wrong_details,
  unexpected_code, unexpected_status,
}
use service_extensions_sampl.Framework.Expectation.Matchers.{
  Decides, one_more-Decides, append-Decides, Found, find_strings-Decides,
}

-- An optional field agrees with what came out.
abbrev pub Agrees : {A : Type 0} → Option A → A → Type 0
Agrees none actual = Unit
Agrees (some a) actual = a ≡ actual

expect_number-Decides :
    (complaint : ℕ → ℕ → Failure) (o : Option ℕ) (n : ℕ)
    → Decides (expect_number complaint o n) (Agrees o n)
expect_number-Decides complaint none n = (λ e. tt, λ p. refl)
expect_number-Decides complaint (some a) n =
    if-cases (λ fs. Decides fs (a ≡ n)) (a == n) _ _ (λ e. (λ f. (==_iff a n).0 e, λ p. refl))
      (λ e. one_more-Decides _ [] (a ≡ n) (λ p. let q = (==_iff a n).1 p in cc))

expect_text-Decides :
    (complaint : Text → Text → Failure) (o : Option Text) (t : Text)
    → Decides (expect_text complaint o t) (Agrees o t)
expect_text-Decides complaint none t = (λ e. tt, λ p. refl)
expect_text-Decides complaint (some a) t =
    if-cases (λ fs. Decides fs (a ≡ t)) (text_eq a t) _ _
      (λ e. (λ f. (text_eq_iff a t).0 e, λ p. refl))
      (λ e. one_more-Decides _ [] (a ≡ t) (λ p. let q = (text_eq_iff a t).1 p in cc))

unless_differ-Decides : (a b : Bool) (f : Failure) → Decides (unless_differ a b f) (b ≡ not a)
unless_differ-Decides true true f = one_more-Decides f [] _ (λ p. cc)
unless_differ-Decides false false f = one_more-Decides f [] _ (λ p. cc)
unless_differ-Decides true false f = (λ e. refl, λ p. refl)
unless_differ-Decides false true f = (λ e. refl, λ p. refl)

-- The answer of the phase is the expected one: without an expected immediate response the filters go
-- on and no HTTP code was sent, with one neither holds and its fields agree.
abbrev pub Answers : Option Immediate → Result → Type 0
Answers none result = (is_continue result.header_status ≡ true) × (result.http_code ≡ 0)
Answers (some imm) result =
    (is_continue result.header_status ≡ false)
    × ((result.http_code ≢ 0)
        × (Agrees imm.http_status result.http_code
            × (Agrees imm.grpc_status result.grpc_code × Agrees imm.details result.details)))

module _ (less : Text → Text → Bool) where
  -- The header of that key has that value, or there is none.
  abbrev pub HasHeader : Headers → Header → Type 0
  HasHeader m h = (is_empty h.key ≡ false) × (lookup less h.key m ≡ some h.value)

  abbrev pub NoHeader : Headers → Header → Type 0
  NoHeader m h = (is_empty h.key ≡ false) × (lookup less h.key m ≡ none)

  found_header-Decides :
      (h : Header) (x : Option Text) → Decides (found_header h x) (x ≡ some h.value)
  found_header-Decides h none = one_more-Decides _ [] (none ≡ some h.value) (λ p. cc)
  found_header-Decides h (some v) =
      if-cases (λ fs. Decides fs (some v ≡ some h.value)) (text_eq v h.value) _ _
        (λ t. let q = (text_eq_iff v h.value).0 t in (λ f. cc, λ p. refl))
        (λ t.
          one_more-Decides _ [] (some v ≡ some h.value)
            (λ p. let q : text_eq v h.value ≡ true = (text_eq_iff v h.value).1 cc in cc))

  left_header-Decides : (h : Header) (x : Option Text) → Decides (left_header h x) (x ≡ none)
  left_header-Decides h none = (λ f. refl, λ p. refl)
  left_header-Decides h (some v) = one_more-Decides _ [] (some v ≡ none) (λ p. cc)

  check_has_headers-Decides :
      (m : Headers) (hs : List Header) (rest : List Failure) (P : Type 0)
      → Decides rest P
      → Decides (check_has_headers less m hs rest) (All (HasHeader m) hs × P)
  unfolding check_has_headers
  check_has_headers-Decides m [] rest P h = (λ e. (tt, h.0 e), λ p. h.1 p.1)
  check_has_headers-Decides m (x ∷ hs) rest P h =
      if-cases (λ fs. Decides fs (All (HasHeader m) (x ∷ hs) × P)) (is_empty x.key) _ _
        (λ e. one_more-Decides _ [] _ (λ p. cc))
        (λ e.
          let k =
            append-Decides _ _ _ _ (found_header-Decides x (lookup less x.key m))
              (check_has_headers-Decides m hs rest P h) in
          (λ f. let q = k.0 f in (((e, q.0), q.1.0), q.1.1), λ p. k.1 (p.0.0.1, (p.0.1, p.1))))

  check_no_headers-Decides :
      (m : Headers) (hs : List Header) (rest : List Failure) (P : Type 0)
      → Decides rest P
      → Decides (check_no_headers less m hs rest) (All (NoHeader m) hs × P)
  unfolding check_no_headers
  check_no_headers-Decides m [] rest P h = (λ e. (tt, h.0 e), λ p. h.1 p.1)
  check_no_headers-Decides m (x ∷ hs) rest P h =
      if-cases (λ fs. Decides fs (All (NoHeader m) (x ∷ hs) × P)) (is_empty x.key) _ _
        (λ e. one_more-Decides _ [] _ (λ p. cc))
        (λ e.
          let k =
            append-Decides _ _ _ _ (left_header-Decides x (lookup less x.key m))
              (check_no_headers-Decides m hs rest P h) in
          (λ f. let q = k.0 f in (((e, q.0), q.1.0), q.1.1), λ p. k.1 (p.0.0.1, (p.0.1, p.1))))

check_immediate-Decides :
    (i : Option Immediate) (result : Result) → Decides (check_immediate i result) (Answers i result)
unfolding check_immediate
check_immediate-Decides none result =
    let k =
      append-Decides _ _ _ _
        (unless_differ-Decides false (is_continue result.header_status)
          (unexpected_status false result.header_status))
        (append-Decides _ _ _ Unit
          (unless_differ-Decides false (result.http_code == 0)
            (unexpected_code false result.http_code))
          (λ e. tt, λ p. refl)) in
    (λ f. let q = k.0 f in (q.0, (==_iff _ 0).0 q.1.0), λ p. k.1 (p.0, ((==_iff _ 0).1 p.1, tt)))
check_immediate-Decides (some imm) result =
    let k =
      append-Decides _ _ _ _
        (unless_differ-Decides true (is_continue result.header_status)
          (unexpected_status true result.header_status))
        (append-Decides _ _ _ _
          (unless_differ-Decides true (result.http_code == 0)
            (unexpected_code true result.http_code))
          (append-Decides _ _ _ _
            (expect_number-Decides wrong_http_status imm.http_status result.http_code)
            (append-Decides _ _ _ _
              (expect_number-Decides wrong_grpc_status imm.grpc_status result.grpc_code)
              (expect_text-Decides wrong_details imm.details result.details)))) in
    (
      λ f. let q = k.0 f in (q.0, ((λ z. let y = (==_iff _ 0).1 z in cc), q.1.1)),
      λ p. k.1 (p.0, (differs result.http_code p.1.0, p.1.1)),
    )
  where
    differs : (n : ℕ) → n ≢ 0 → (n == 0) ≡ false
    differs n h = ground (arith, h)

-- What an expectation asks of a phase.
module _ {R : Type 0} (o : Outside R) (test_path : Text) (less : Text → Text → Bool) where
  abbrev pub IsMet : Expectation → List Text → Result → Type 0
  IsMet expect phase_logs result =
      All (HasHeader less result.headers) expect.has_header
      × (All (NoHeader less result.headers) expect.no_header
          × (All (Found o test_path (map header_line result.headers)) expect.headers
              × (All (Found o test_path (result.body ∷ [])) expect.body
                  × (Answers expect.immediate result
                      × All (Found o test_path phase_logs) expect.log))))

  -- A phase passes its check exactly if its result meets the expectation: every expected header has its
  -- value and no unwanted one is there, every matcher finds its text, or none with `invert`, among the
  -- header lines, the body and the log, and the status, codes and details fit the expected answer.
  pub check_passes-IsMet :
      (expect : Expectation) (phase_logs : List Text) (result : Result)
      → (check_phase_results o test_path less expect phase_logs result ≡ [])
        ↔ IsMet expect phase_logs result
  unfolding check_phase_results
  check_passes-IsMet expect phase_logs result =
      check_has_headers-Decides less result.headers expect.has_header _ _ (
        check_no_headers-Decides less result.headers expect.no_header _ _ (
          append-Decides _ _ _ _ (find_strings-Decides o test_path _ expect.headers _) (
            append-Decides _ _ _ _ (find_strings-Decides o test_path _ expect.body _) (
              append-Decides _ _ _ _ (check_immediate-Decides expect.immediate result)
                (find_strings-Decides o test_path _ expect.log phase_logs)))))
