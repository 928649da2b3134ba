-- ===== src/Framework/Expectation.antt =====
-- plugins/test/dynamic_test.cc and runner.proto: the expectations of a test on the result of a phase,
-- `StringMatcher`, `FindString` and `CheckPhaseResults`. RE2, the paths of Boost and the reading of
-- files are parameters. A failure is kept as the values that its message shows, without the phase.
pub mod Matchers
pub mod Laws
use service_extensions_sampl.Base.{
  Text, ℕ, ◌⊎◌, inl, inr, Bool, true, false, not, Option, none, some, List, [], ◌∷◌, ◌++◌, ◌==◌,
  if◌then◌else◌, codes, text_eq, is_empty, has_value, map,
}
use service_extensions_sampl.Wasm.{FilterHeadersStatus, continue, continue_and_end_stream}
use service_extensions_sampl.Framework.Headers.{Headers, lookup}
use service_extensions_sampl.Framework.Stream.{Result}

-- The `oneof` of the message `StringMatcher`.
pub data Pattern : Type 0 where
  exact regex file : Text → Pattern
  unset : Pattern

-- The message `StringMatcher`.
pub record Matching : Type 0 where
  pub invert : Bool
  pub pattern : Pattern

-- The messages `Header` and `Expectation.Immediate`.
pub record Header : Type 0 where
  pub key : Text
  pub value : Text

pub record Immediate : Type 0 where
  pub http_status : Option ℕ
  pub grpc_status : Option ℕ
  pub details : Option Text

-- The message `Expectation`.
pub record Expectation : Type 0 where
  pub has_header : List Header
  pub no_header : List Header
  pub headers : List Matching
  pub body : List Matching
  pub immediate : Option Immediate
  pub log : List Matching

-- RE2, Boost's paths and `ReadDataFile`. A text on the left is an error.
pub record Outside (R : Type 0) : Type 0 where
  pub compile : Text → Text ⊎ R
  pub full_match : Text → R → Bool
  pub is_absolute : Text → Bool
  pub parent_path : Text → Text
  pub slash : Text → Text → Text
  pub read_data_file : Text → Text ⊎ Text

-- The class `StringMatcher`.
pub record StringMatcher (R : Type 0) : Type 0 where
  pub invert : Bool
  pub exact : Text
  pub re : Option R

-- The calls of `ADD_FAILURE` and `ASSERT_TRUE`.
pub data Failure : Type 0 where
  missing_has_header_key missing_no_header_key missing_header : Text → Failure
  wrong_header wrong_details : Text → Text → Failure
  not_removed : Text → Text → Failure
  unexpected_status : Bool → FilterHeadersStatus → Failure
  unexpected_code : Bool → ℕ → Failure
  wrong_http_status wrong_grpc_status : ℕ → ℕ → Failure
  bad_matcher : Text → Failure
  no_match : Bool → Text → Text → List Text → Failure

-- The default message that `immediate()` returns when the field is not set.
abbrev immediate_of : Option Immediate → Immediate
immediate_of none = record { http_status = none; grpc_status = none; details = none }
immediate_of (some imm) = imm

abbrev pub is_continue : FilterHeadersStatus → Bool
is_continue continue = true
is_continue continue_and_end_stream = true
is_continue _ = false

-- One line of the serialized headers.
abbrev pub header_line : Text × Text → Text
header_line (k, v) = k ++ codes ": " ++ v

-- `has_x() && x() != actual`, and the failure then.
abbrev pub expect_number : (ℕ → ℕ → Failure) → Option ℕ → ℕ → List Failure
expect_number complaint none actual = []
expect_number complaint (some n) actual = if n == actual then [] else complaint actual n ∷ []

abbrev pub expect_text : (Text → Text → Failure) → Option Text → Text → List Failure
expect_text complaint none actual = []
expect_text complaint (some t) actual = if text_eq t actual then [] else complaint actual t ∷ []

-- `if (a == b) ADD_FAILURE() << …`
abbrev pub unless_differ : Bool → Bool → Failure → List Failure
unless_differ true true f = f ∷ []
unless_differ false false f = f ∷ []
unless_differ _ _ f = []

-- The checks of one header, on what `find` has found.
abbrev pub found_header : Header → Option Text → List Failure
found_header h none = missing_header h.key ∷ []
found_header h (some v) = if text_eq v h.value then [] else wrong_header v h.value ∷ []

abbrev pub left_header : Header → Option Text → List Failure
left_header h none = []
left_header h (some v) = not_removed h.key v ∷ []

-- From the check of the immediate response on.
unfoldable pub check_immediate : Option Immediate → Result → List Failure
check_immediate immediate result =
    let has_immediate = has_value immediate in
    let imm = immediate_of immediate in
    unless_differ has_immediate (is_continue result.header_status)
      (unexpected_status has_immediate result.header_status)
    ++ (unless_differ has_immediate (result.http_code == 0)
          (unexpected_code has_immediate result.http_code)
        ++ (expect_number wrong_http_status imm.http_status result.http_code
            ++ (expect_number wrong_grpc_status imm.grpc_status result.grpc_code
                ++ expect_text wrong_details imm.details result.details)))

module _ (less : Text → Text → Bool) where
  -- The loops over `has_header` and `no_header`. The last argument is what comes after the loop, which
  -- a failed `ASSERT_TRUE` leaves out.
  unfoldable pub check_has_headers : Headers → List Header → List Failure → List Failure
  unfolding lookup
  check_has_headers m [] rest = rest
  check_has_headers m (h ∷ hs) rest =
      if is_empty h.key
      then missing_has_header_key h.value ∷ []
      else found_header h (lookup less h.key m) ++ check_has_headers m hs rest

  unfoldable pub check_no_headers : Headers → List Header → List Failure → List Failure
  unfolding lookup
  check_no_headers m [] rest = rest
  check_no_headers m (h ∷ hs) rest =
      if is_empty h.key
      then missing_no_header_key h.value ∷ []
      else left_header h (lookup less h.key m) ++ check_no_headers m hs rest

module _ {R : Type 0} (o : Outside R) (test_path : Text) where
  unfoldable pub read_content : Text → Text ⊎ Text
  read_content path =
      o.read_data_file (if o.is_absolute path then path else o.slash (o.parent_path test_path) path)

  -- `StringMatcher::Create`
  unfoldable pub create : Matching → Text ⊎ StringMatcher R
  unfolding read_content
  create expect = elim expect.pattern [
    | exact t ↦ inr (record { invert = expect.invert; exact = t; re = none })
    | file path ↦ elim (read_content path) [
      | inl e ↦ inl (codes "Bad file: " ++ e)
      | inr t ↦ inr (record { invert = expect.invert; exact = t; re = none })
    ]
    | regex r ↦ elim (o.compile r) [
      | inl e ↦ inl (codes "Bad regex: " ++ e)
      | inr re ↦ inr (record { invert = expect.invert; exact = []; re = some re })
    ]
    | unset ↦ inl (codes "StringMatcher must specify 'exact' or 'regex' field.")
  ]

  abbrev pub matches_one : StringMatcher R → Text → Bool
  matches_one m msg = elim m.re [ some re ↦ o.full_match msg re | none ↦ text_eq msg m.exact ]

  -- `StringMatcher::Matches`
  unfoldable pub matches : StringMatcher R → List Text → Bool
  matches m [] = m.invert
  matches m (msg ∷ contents) = if matches_one m msg then not m.invert else matches m contents

  -- What the message of `FindString` shows of the expectation.
  abbrev shown : Matching → StringMatcher R → Text
  shown expect m = elim expect.pattern [ regex r ↦ r | _ ↦ m.exact ]

  -- The end of `FindString`, on what `Create` has returned.
  abbrev pub report : Text → Matching → List Text → Text ⊎ StringMatcher R → List Failure
  report type expect contents (inl e) = bad_matcher e ∷ []
  report type expect contents (inr m) =
      if matches m contents then [] else no_match expect.invert type (shown expect m) contents ∷ []

  unfoldable pub find_string : Text → Matching → List Text → List Failure
  unfolding create matches
  find_string type expect contents = report type expect contents (create expect)

  abbrev pub find_strings : Text → List Matching → List Text → List Failure
  find_strings type [] contents = []
  find_strings type (e ∷ es) contents = find_string type e contents ++ find_strings type es contents

  -- `CheckSideEffects`
  abbrev check_side_effects : Expectation → List Text → List Failure
  check_side_effects expect phase_logs = find_strings (codes "log") expect.log phase_logs

  module _ (less : Text → Text → Bool) where
    -- `CheckPhaseResults`: `phase_logs` is what the plugin has logged in the phase.
    unfoldable pub check_phase_results : Expectation → List Text → Result → List Failure
    unfolding check_has_headers check_no_headers check_immediate find_string
    check_phase_results expect phase_logs result =
        check_has_headers less result.headers expect.has_header (
          check_no_headers less result.headers expect.no_header (
            find_strings (codes "header") expect.headers (map header_line result.headers)
            ++ (find_strings (codes "body") expect.body (result.body ∷ [])
                ++ (check_immediate expect.immediate result
                    ++ find_strings (codes "log") expect.log phase_logs))))
