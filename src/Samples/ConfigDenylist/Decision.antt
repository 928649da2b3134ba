-- ===== src/Samples/ConfigDenylist/Decision.antt =====
-- plugins/samples/config_denylist/plugin.cc: configuration and request together.
use service_extensions_sampl.Base.{
  ◌++◌, length, Text, ℕ, ◌≡◌, refl, inl, inr, Bool, true, false, not, Option, none, some, List, [],
  ◌∷◌, arith, Option-cases, codes, has_text,
}
use service_extensions_sampl.Wasm.{
  request_headers, plugin_configuration, FilterHeadersStatus, continue, info,
}
use service_extensions_sampl.Sdk.{Sdk}
use service_extensions_sampl.Samples.ConfigDenylist.{on_configure, on_request_headers}
use service_extensions_sampl.Samples.ConfigDenylist.Words.{words, parse_loop-has_text}

-- Whether the user token is there, is not empty, and is no word of the configuration.
abbrev pub is_admitted : Option Text → Text → Bool
is_admitted none config = false
is_admitted (some []) config = false
is_admitted (some (c ∷ t)) config = not (has_text (c ∷ t) (words config))

abbrev pub is_continue : FilterHeadersStatus → Bool
is_continue continue = true
is_continue _ = false

-- The status and the state that the request callback leaves, by the tokens that it has.
request_admitted :
    {S : Type 0} (sdk : Sdk S) (tokens : List Text) (config : Text) (s : S)
    → ((t : Text) → has_text t tokens ≡ has_text t (words config))
    → (is_continue (on_request_headers sdk tokens s).0
        ≡ is_admitted (sdk.get_header request_headers (codes "User-Token") s) config)
      × (is_continue (on_request_headers sdk tokens s).0 ≡ true
          → (on_request_headers sdk tokens s).1 ≡ s)
unfolding on_request_headers
request_admitted sdk tokens config s h =
    elim (Option-cases (sdk.get_header request_headers (codes "User-Token") s)) [
      | inl e ↦ rw (e, on_request_headers) (refl, λ p. absurd (cc p))
      | inr ([], e) ↦ rw (e, on_request_headers) (refl, λ p. absurd (cc p))
      | inr (c ∷ t, e) ↦ ground (arith, h (c ∷ t))
    ]

-- Configuring from any text succeeds, and from then on a request goes through, untouched, exactly
-- if its user token is there, is not empty and is no word of the configuration.
pub denylist_decides :
    {S : Type 0} (sdk : Sdk S) (to_string : ℕ → Text) (config_len : ℕ) (config : Text) (s u : S)
    → sdk.get_buffer_bytes plugin_configuration 0 config_len s ≡ some config
    → (tokens : List Text) × (s' : S) × (on_configure sdk to_string config_len s
        ≡ some (tokens, s'))
      × (is_continue (on_request_headers sdk tokens u).0
          ≡ is_admitted (sdk.get_header request_headers (codes "User-Token") u) config)
      × (is_continue (on_request_headers sdk tokens u).0 ≡ true
          → (on_request_headers sdk tokens u).1 ≡ u)
unfolding on_configure
denylist_decides sdk to_string config_len config s u e =
    let (found, ends, same) = parse_loop-has_text config in
    let asked = request_admitted sdk found config u same in
    (
      found,
      sdk.log info (codes "Config keys size " ++ to_string (length found)) s,
      rw (e, ends, on_configure),
      asked.0,
      asked.1,
    )
