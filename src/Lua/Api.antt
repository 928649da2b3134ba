-- ===== src/Lua/Api.antt =====
-- plugins/samples/lua/envoy_lua_api.cc: the headers and buffers that a script sees. `passed_on` is
-- what the flag of the coroutine says at the time of the call.
pub mod Laws
use service_extensions_sampl.Base.{
  Text, codes, ℕ, ◌+◌, Bool, true, false, ◌&&◌, Option, none, some, List, [], ◌∷◌, ◌++◌, ◌==◌,
  if◌then◌else◌,
}
use service_extensions_sampl.Base.Int.{ℤ, pos, negsuc}
use service_extensions_sampl.Wasm.{
  HeaderMapType, request_headers, response_headers, BufferType, WasmResult, ok, not_found,
}
use service_extensions_sampl.Sdk.{is_ok}
use service_extensions_sampl.Lua.Status.{internal, invalid_argument, StatusOr, fine, error_of}
use service_extensions_sampl.Lua.Script.{Header, Host}

-- `type_ == RequestHeaders || type_ == ResponseHeaders`
abbrev pub is_header_map : HeaderMapType → Bool
is_header_map request_headers = true
is_header_map response_headers = true
is_header_map _ = false

-- The test at the head of `Add`, `Remove` and `Replace`.
unfoldable pub is_closed : Bool → Header → Bool
is_closed passed_on h = h.is_guarded && passed_on && is_header_map h.type

-- The loop of `GetAtIndex`, from a count on.
unfoldable pub nth_match : (Text → Text → Bool) → Text → ℕ → ℕ → List (Text × Text) → Option Text
nth_match same key index count [] = none
nth_match same key index count ((header_key, header_value) ∷ pairs) =
    if same header_key key
    then (if count == index then some header_value else nth_match same key index (count + 1) pairs)
    else nth_match same key index count pairs

-- The loop of `GetNumValues`. The `int` counts the headers of one message and does not overflow.
unfoldable pub count_matches : (Text → Text → Bool) → Text → ℕ → List (Text × Text) → ℕ
count_matches same key count [] = count
count_matches same key count ((header_key, header_value) ∷ pairs) =
    if same header_key key
    then count_matches same key (count + 1) pairs
    else count_matches same key count pairs

module _ {S : Type 0} (host : Host S) where
  -- An SDK call that failed as a status, with the words in front of its result.
  unfoldable pub status_of : Text → WasmResult × S → StatusOr Unit × S
  status_of complaint (result, s) =
      (if is_ok result then fine tt else error_of internal (complaint ++ host.to_text result), s)

  abbrev pub passed_on_error : StatusOr Unit
  passed_on_error =
      error_of internal (codes "attempt to mutate headers after they have been passed on")

  unfoldable pub add : Bool → Header → Text → Text → S → StatusOr Unit × S
  unfolding is_closed status_of
  add passed_on h key value s =
      if is_closed passed_on h
      then (passed_on_error, s)
      else status_of (codes "Failed to add header: ") (host.sdk.add_header h.type key value s)

  unfoldable pub remove : Bool → Header → Text → S → StatusOr Unit × S
  unfolding is_closed status_of
  remove passed_on h key s =
      if is_closed passed_on h
      then (passed_on_error, s)
      else status_of (codes "Failed to remove header: ") (host.sdk.remove_header h.type key s)

  unfoldable pub replace : Bool → Header → Text → Text → S → StatusOr Unit × S
  unfolding is_closed status_of
  replace passed_on h key value s =
      if is_closed passed_on h
      then (passed_on_error, s)
      else status_of (codes "Failed to replace header: ")
          (host.sdk.replace_header h.type key value s)

  unfoldable pub get : Header → Text → S → StatusOr (Option Text)
  get h key s = fine (host.sdk.get_header h.type key s)

  unfoldable pub get_at_index : Header → Text → ℤ → S → StatusOr (Option Text)
  unfolding nth_match
  get_at_index h key (negsuc n) s = error_of invalid_argument (codes "index must be non-negative")
  get_at_index h key (pos index) s = elim (host.get_header_map_pairs h.type s) [
    | none ↦ error_of internal (codes "Failed to get header pairs for GetAtIndex")
    | some pairs ↦ fine (nth_match host.equals_ignore_case key index 0 pairs)
  ]

  unfoldable pub get_num_values : Header → Text → S → StatusOr ℕ
  unfolding count_matches
  get_num_values h key s = elim (host.get_header_map_pairs h.type s) [
    | none ↦ error_of internal (codes "Failed to get header pairs for GetNumValues")
    | some pairs ↦ fine (count_matches host.equals_ignore_case key 0 pairs)
  ]

  abbrev pub or_no_pairs : Option (List (Text × Text)) → List (Text × Text)
  or_no_pairs none = []
  or_no_pairs (some pairs) = pairs

  unfoldable pub get_pairs : Header → S → StatusOr (List (Text × Text))
  get_pairs h s =
      let (result, answer) = host.proxy_get_header_map_pairs h.type s in
      elim result [
        | not_found ↦ fine []
        | ok ↦ fine (or_no_pairs answer)
        | other ↦ error_of internal (codes "Failed to get header pairs: " ++ host.to_text other)
      ]

  unfoldable pub get_length : BufferType → S → StatusOr ℕ
  get_length type s =
      let (result, size) = host.get_buffer_status type s in
      if is_ok result
      then fine size
      else error_of internal (codes "Failed to get buffer status: " ++ host.to_text result)

  abbrev or_empty : Option Text → Text
  or_empty none = []
  or_empty (some text) = text

  unfoldable pub get_bytes : BufferType → ℕ → ℕ → S → StatusOr Text
  get_bytes type index length s =
      let (result, answer) = host.proxy_get_buffer_bytes type index length s in
      if is_ok result
      then fine (or_empty answer)
      else error_of internal (codes "Failed to get buffer bytes: " ++ host.to_text result)

  unfoldable pub set_bytes : BufferType → Text → S → StatusOr Unit × S
  unfolding status_of
  set_bytes type text s =
      let (result, length) = host.get_buffer_status type s in
      if is_ok result
      then status_of (codes "Failed to set buffer: ") (host.sdk.set_buffer type 0 length text s)
      else (
        error_of internal
            (codes "Failed to get buffer status for SetBytes: " ++ host.to_text result),
        s,
      )
