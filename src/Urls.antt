-- ===== src/Urls.antt =====
-- Boost.URL as the plugins call it. Its code is not in the repository, so it is a record of
-- functions over an unknown type of parsed URLs.
use service_extensions_sampl.Base.{Text, Option}

pub record Urls (U : Type 0) : Type 0 where
  pub parse_relative_ref : Text → Option U
  pub parse_uri_reference : Text → Option U
  -- `error().message()` of a text that does not parse as a relative reference
  pub error_message : Text → Text
  -- The value of `params().find(key)`; `none` for the end.
  pub find_param : U → Text → Option Text
  -- `params().erase(it)` at the first parameter of that key, and `params().erase(key)` of all
  pub erase_found : U → Text → U
  pub erase_param : U → Text → U
  pub set_param : U → Text → Text → U
  pub buffer : U → Text
  pub encoded_resource : U → Text
