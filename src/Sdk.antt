-- ===== src/Sdk.antt =====
-- The Proxy-Wasm C++ SDK as the plugins see it. Its code is not in the repository, so it is a
-- record of operations over an unknown state; `IsLawful` states what the plugins rely on: headers that
-- can be changed read back as changed, and changing one header leaves the others alone. Module
-- Framework.Hosted fills both records with the host of plugins/test.
use service_extensions_sampl.Base.{
  Text, ℕ, ◌≡◌, Bool, true, false, Option, some, List, if◌then◌else◌,
}
use service_extensions_sampl.Wasm.{HeaderMapType, BufferType, WasmResult, ok, LogLevel}

pub record Sdk (S : Type 0) : Type 0 where
  -- `getRequestHeader`, `getResponseHeader`: `none` is the null pointer. A header that is not there
  -- reads as `missing_header`: the plugins test for a null pointer, and the tests of
  -- plugins/samples/hmac_authcookie show a pointer to an empty text.
  pub missing_header : Option Text
  pub get_header : HeaderMapType → Text → S → Option Text
  pub header_pairs : HeaderMapType → S → List (Text × Text)
  pub add_header : HeaderMapType → Text → Text → S → WasmResult × S
  pub replace_header : HeaderMapType → Text → Text → S → WasmResult × S
  pub remove_header : HeaderMapType → Text → S → WasmResult × S
  pub set_header_pairs : HeaderMapType → List (Text × Text) → S → WasmResult × S
  -- `getBufferBytes(type, start, length)`
  pub get_buffer_bytes : BufferType → ℕ → ℕ → S → Option Text
  pub set_buffer : BufferType → ℕ → ℕ → Text → S → WasmResult × S
  -- `sendLocalResponse(code, details, body, headers)`
  pub send_local_response : ℕ → Text → Text → List (Text × Text) → S → S
  pub get_property : List Text → S → Option Text
  pub log : LogLevel → Text → S → S

-- A callback: it returns a value and the state after its calls.
abbrev pub Act : Type 0 → Type 0 → Type 0
Act S A = S → A × S

abbrev pub is_ok : WasmResult → Bool
is_ok ok = true
is_ok _ = false

-- `same` is the equality of header names, and `Open t s` says that the headers `t` can be changed in
-- the state `s`, as they can during the callback for them.
pub record IsLawful {S : Type 0} (sdk : Sdk S) (same : Text → Text → Bool)
    (Open : HeaderMapType → S → Type 0) : Type 0 where
  pub replace-Open :
      (t : HeaderMapType) (k v : Text) (s : S)
      → Open t s
      → ((sdk.replace_header t k v s).0 ≡ ok) × Open t (sdk.replace_header t k v s).1
  pub get-replace :
      (t : HeaderMapType) (j k v : Text) (s : S)
      → Open t s
      → sdk.get_header t j (sdk.replace_header t k v s).1
        ≡ (if same j k then some v else sdk.get_header t j s)
  pub remove-Open :
      (t : HeaderMapType) (k : Text) (s : S)
      → Open t s
      → ((sdk.remove_header t k s).0 ≡ ok) × Open t (sdk.remove_header t k s).1
  pub get-remove :
      (t : HeaderMapType) (j k : Text) (s : S)
      → Open t s
      → sdk.get_header t j (sdk.remove_header t k s).1
        ≡ (if same j k then sdk.missing_header else sdk.get_header t j s)
  pub log-Open :
      (t : HeaderMapType) (l : LogLevel) (m : Text) (s : S) → Open t s → Open t (sdk.log l m s)
  pub get-log :
      (t : HeaderMapType) (j : Text) (l : LogLevel) (m : Text) (s : S)
      → sdk.get_header t j (sdk.log l m s) ≡ sdk.get_header t j s
