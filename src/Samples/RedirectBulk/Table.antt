-- ===== src/Samples/RedirectBulk/Table.antt =====
-- plugins/samples/redirect_bulk/plugin.cc: which domains are redirected, by the configured text.
use service_extensions_sampl.Base.{
  Text, ℕ, ◌≡◌, refl, ap, inl, inr, Bool, true, false, Option, none, some, List, [], ◌∷◌, ◌++◌,
  arith, if◌then◌else◌, Bool-cases, Option-cases, codes, text_eq, text_eq_iff,
}
use service_extensions_sampl.Wasm.{
  request_headers, plugin_configuration, FilterHeadersStatus, continue, continue_and_end_stream,
}
use service_extensions_sampl.Sdk.{Sdk}
use service_extensions_sampl.Samples.RedirectBulk.{
  Strings, Mappings, assign, lookup, is_skipped, entry, configure_lines, on_configure, host_part,
  on_request_headers,
}

-- What one line of the configuration says of a domain.
abbrev pub said : Strings → Text → Text → Option Text
said lib domain line =
    let stripped = lib.strip_ascii_whitespace line in
    if is_skipped stripped
    then none
    else (elim (entry lib.ascii_str_to_lower (lib.str_split stripped b' ')) [
      | none ↦ none
      | some (source, target) ↦ if text_eq domain source then some target else none
    ])

abbrev pub or_else : Option Text → Option Text → Option Text
or_else none d = d
or_else (some v) d = some v

abbrev pub or_default : Text → Option Text → Text
or_default d none = d
or_default d (some v) = v

-- The target of the last line about a domain.
abbrev pub mapped : Strings → Text → List Text → Option Text
mapped lib domain [] = none
mapped lib domain (line ∷ lines) = or_else (mapped lib domain lines) (said lib domain line)

lookup-assign :
    (j k v : Text) (m : Mappings)
    → lookup j (assign k v m) ≡ (if text_eq j k then some v else lookup j m)
unfolding lookup assign
lookup-assign j k v [] = refl
lookup-assign j k v ((i, w) ∷ m) =
    ground (arith, lookup-assign j k v m, text_eq_iff k i, text_eq_iff j i, text_eq_iff j k)

or_else_assoc : (a b c : Option Text) → or_else (or_else a b) c ≡ or_else a (or_else b c)
or_else_assoc none b c = refl
or_else_assoc (some v) b c = refl

if_or :
    (b : Bool) (v : Text) (d : Option Text)
    → (if b then some v else d) ≡ or_else (if b then some v else none) d
if_or true v d = refl
if_or false v d = refl

configure_lines-lookup :
    (lib : Strings) {S : Type 0} (sdk : Sdk S) (domain : Text) (lines : List Text) (m : Mappings)
    (s : S)
    → lookup domain (configure_lines lib sdk lines m s).0
      ≡ or_else (mapped lib domain lines) (lookup domain m)
unfolding configure_lines
configure_lines-lookup lib sdk domain [] m s = refl
configure_lines-lookup lib sdk domain (line ∷ lines) m s =
    let stripped = lib.strip_ascii_whitespace line in
    let ih = configure_lines-lookup lib sdk domain lines in
    elim (Bool-cases (is_skipped stripped)) [
      | inl e ↦ rw (e, configure_lines, or_else_assoc) (ih m s)
      | inr e ↦ elim (Option-cases (entry lib.ascii_str_to_lower (lib.str_split stripped b' '))) [
        | inl g ↦ rw (e, g, configure_lines, or_else_assoc) (ih m _)
        | inr ((source, target), g) ↦
            rw
              (
                e,
                g,
                configure_lines,
                or_else_assoc,
                ih (assign source target m) s,
                lookup-assign domain source target m,
              )
              (ap (or_else (mapped lib domain lines))
                (if_or (text_eq domain source) target (lookup domain m)))
      ]
    ]

or_else-none : (a : Option Text) → or_else a none ≡ a
or_else-none none = refl
or_else-none (some v) = refl

-- The URL that a request is sent to, with the defaults for a missing scheme and path.
abbrev pub new_url : {S : Type 0} → Sdk S → S → Text → Text
new_url sdk u target =
    or_default (codes "https") (sdk.get_header request_headers (codes ":scheme") u)
    ++ (codes "://"
        ++ (target ++ or_default (codes "/") (sdk.get_header request_headers (codes ":path") u)))

-- With a target the answer 301 that names the URL as the location, and without one no call.
abbrev pub redirected : {S : Type 0} → Sdk S → S → Option Text → FilterHeadersStatus × S
redirected sdk u none = (continue, u)
redirected sdk u (some target) = (
  continue_and_end_stream,
  sdk.send_local_response 301 [] (codes "Redirecting to " ++ new_url sdk u target)
      ((codes "Location", new_url sdk u target) ∷ []) u,
)

request_by_table :
    (lib : Strings) {S : Type 0} (sdk : Sdk S) (m : Mappings) (authority : Text) (u : S)
    (target : Option Text)
    → sdk.get_header request_headers (codes ":authority") u ≡ some authority
    → lookup (lib.ascii_str_to_lower (host_part authority)) m ≡ target
    → on_request_headers lib sdk m u ≡ redirected sdk u target
unfolding on_request_headers
request_by_table lib sdk m authority u none asked e = rw (asked, on_request_headers, e) refl
request_by_table lib sdk m authority u (some t) asked e =
    rw (asked, on_request_headers, e)
      (elim (Option-cases (sdk.get_header request_headers (codes ":path") u)) [
        | inl p ↦ elim (Option-cases (sdk.get_header request_headers (codes ":scheme") u)) [
          | inl q ↦ rw (p, q) refl
          | inr (_, q) ↦ rw (p, q) refl
        ]
        | inr (_, p) ↦ elim (Option-cases (sdk.get_header request_headers (codes ":scheme") u)) [
          | inl q ↦ rw (p, q) refl
          | inr (_, q) ↦ rw (p, q) refl
        ]
      ])

-- After any configuration, a request with a domain is answered with 301 and the new URL as its
-- location exactly if some line gives a target for the domain, and the target is that of the last such
-- line. Any other request goes on unchanged.
pub redirects_by_last_line :
    (lib : Strings) {S : Type 0} (sdk : Sdk S) (config_len c : ℕ) (config authority : Text)
    (s u : S)
    → sdk.get_buffer_bytes plugin_configuration 0 config_len s ≡ some (c ∷ config)
    → sdk.get_header request_headers (codes ":authority") u ≡ some authority
    → let domain = lib.ascii_str_to_lower (host_part authority) in
      on_request_headers lib sdk (on_configure lib sdk config_len s).0 u
      ≡ redirected sdk u (mapped lib domain (lib.str_split (c ∷ config) 10))
unfolding on_configure lookup
redirects_by_last_line lib sdk config_len c config authority s u read asked =
    let domain = lib.ascii_str_to_lower (host_part authority) in
    let lines = lib.str_split (c ∷ config) 10 in
    let found : lookup domain (on_configure lib sdk config_len s).0 ≡ mapped lib domain lines =
      rw (read, on_configure, configure_lines-lookup lib sdk domain lines [] s)
        (or_else-none (mapped lib domain lines)) in
    request_by_table lib sdk _ authority u _ asked found
