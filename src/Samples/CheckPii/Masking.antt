-- ===== src/Samples/CheckPii/Masking.antt =====
-- plugins/samples/check_pii/plugin.cc: the masked headers of a response.
use service_extensions_sampl.Base.{Text, ◌≡◌, Bool, List, map, any}
use service_extensions_sampl.Sdk.{Sdk}
use service_extensions_sampl.Samples.CheckPii.{Matchers, mask_pii}

-- What RE2 documents of `GlobalReplace`: without a replacement the text stays as it was.
pub record IsReplacing (lib : Matchers) : Type 0 where
  pub cards : (v : Text) → (lib.replace_cards v).1 ≡ 0 → (lib.replace_cards v).0 ≡ v
  pub ten_digits : (v : Text) → (lib.replace_codes v).1 ≡ 0 → (lib.replace_codes v).0 ≡ v

-- All headers with their values masked.
abbrev pub all_masked : Matchers → List (Text × Text) → List (Text × Text)
all_masked lib pairs = map (λ p. (p.0, (mask_pii lib p.1).0)) pairs

-- Whether a mask applies to one of the values.
abbrev pub any_masked : Matchers → List (Text × Text) → Bool
any_masked lib pairs = any (λ p. (mask_pii lib p.1).1) pairs
