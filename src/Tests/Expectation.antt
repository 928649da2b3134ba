-- ===== src/Tests/Expectation.antt =====
-- The expectations of plugins/test on a denied request.
use service_extensions_sampl.Base.{
  Text, ◌≡◌, refl, ◌↔◌, inl, inr, true, false, none, some, [], ◌∷◌, codes, text_eq, text_lt,
}
use service_extensions_sampl.Wasm.{stop_iteration, continue_data}
use service_extensions_sampl.Framework.Headers.{lookup}
use service_extensions_sampl.Framework.Stream.{Result}
use service_extensions_sampl.Framework.Expectation.{
  Expectation, Outside, exact, regex, check_phase_results,
}
use service_extensions_sampl.Framework.Expectation.Laws.{check_passes-IsMet, IsMet}

-- A pattern is a text that fits itself.
abbrev literal : Outside Text
literal = record {
  compile = λ t. inr t;
  full_match = text_eq;
  is_absolute = λ t. true;
  parent_path = λ t. t;
  slash = λ d t. t;
  read_data_file = λ t. inl (codes "NOT_FOUND: ");
}

abbrev denied : Result
denied = record {
  header_status = stop_iteration;
  headers = (codes "a", codes "1") ∷ [];
  body_status = continue_data;
  body = codes "no";
  http_code = 403;
  grpc_code = 0;
  details = [];
}

abbrev denial : Expectation
denial = record {
  has_header = record { key = codes "a"; value = codes "1" } ∷ [];
  no_header = record { key = codes "b"; value = [] } ∷ [];
  headers = record { invert = false; pattern = exact (codes "a: 1") } ∷ [];
  body = record { invert = true; pattern = regex (codes "yes") } ∷ [];
  immediate = some (record { http_status = some 403; grpc_status = none; details = none });
  log = [];
}

passes : check_phase_results literal [] text_lt denial [] denied ≡ []
unfolding check_phase_results codes text_eq text_lt lookup
passes = refl

check_passes-IsMet_example :
    (check_phase_results literal [] text_lt denial [] denied ≡ [])
    ↔ IsMet literal [] text_lt denial [] denied
check_passes-IsMet_example = check_passes-IsMet literal [] text_lt denial [] denied
