-- ===== src/Samples/OverwriteErrcode/Status.antt =====
-- plugins/samples/overwrite_errcode/plugin.cc: the status that the client sees.
use service_extensions_sampl.Base.{
  Text, ◌≡◌, refl, inl, inr, Bool, false, ◌&&◌, Option, none, some, if◌then◌else◌, Bool-cases,
  Option-cases, codes, arith, leb,
}
use service_extensions_sampl.Base.Int.{ℤ, pos, negsuc}
use service_extensions_sampl.Wasm.{HeaderMapType, response_headers}
use service_extensions_sampl.Sdk.{Sdk, IsLawful}
use service_extensions_sampl.Samples.OverwriteErrcode.{
  is_server_error, overwrite, on_response_headers,
}

-- Whether a number is a status from 500 to 599, and whether a text is such a number.
abbrev pub in_500s : ℤ → Bool
in_500s (pos n) = leb 500 n && leb n 599
in_500s (negsuc n) = false

abbrev pub is_hidden : (Text → Option ℤ) → Text → Bool
is_hidden simple_atoi status = elim (simple_atoi status) [ none ↦ false | some n ↦ in_500s n ]

is_server_error-range : (n : ℤ) → in_500s n ≡ is_server_error n
is_server_error-range (pos n) = ground arith
is_server_error-range (negsuc n) = refl

-- On a host that keeps its laws, no server error reaches the client: a status that is a number from
-- 500 to 599 is read as 404 after the plugin. Any other status and all other headers stay.
pub server_errors_hidden :
    (simple_atoi : Text → Option ℤ) (show : ℤ → Text) {S : Type 0} (sdk : Sdk S)
    (same : Text → Text → Bool) (Open : HeaderMapType → S → Type 0)
    → IsLawful sdk same Open
    → (s : S) (status j : Text) → Open response_headers s
    → sdk.get_header response_headers (codes ":status") s ≡ some status
    → sdk.get_header response_headers j (on_response_headers simple_atoi show sdk s).1 ≡ (
        if is_hidden simple_atoi status && same j (codes ":status")
        then some (show (pos 404))
        else sdk.get_header response_headers j s)
unfolding on_response_headers overwrite
server_errors_hidden simple_atoi show sdk same Open laws s status j opened e =
    elim (Option-cases (simple_atoi status)) [
      | inl g ↦ rw (e, on_response_headers, is_hidden, g) refl
      | inr (n, g) ↦ elim (Bool-cases (is_server_error n)) [
        | inl b ↦
            rw
              (
                e,
                on_response_headers,
                is_hidden,
                g,
                is_server_error-range n,
                b,
                overwrite,
                (laws.replace-Open response_headers (codes ":status") (show (pos 404)) s opened).0,
              )
              (laws.get-replace response_headers j (codes ":status") (show (pos 404)) s opened)
        | inr b ↦
            rw (e, on_response_headers, is_hidden, g, is_server_error-range n, b, overwrite) refl
      ]
    ]
