-- ===== src/Absl.antt =====
-- The string functions of Abseil, as the plugins call them. Abseil is not in the repository, so
-- they are a record of functions on texts.
use service_extensions_sampl.Base.{Text, ℕ, List}

pub record Absl : Type 0 where
  -- `StrSplit(text, c)`
  pub str_split : Text → ℕ → List Text
  pub strip_ascii_whitespace : Text → Text
