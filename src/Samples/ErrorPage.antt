-- ===== src/Samples/ErrorPage.antt =====
-- plugins/samples/error_page_with_traceid/plugin.cc: error responses become pages that show the
-- trace id of the request.
pub mod TraceId
use service_extensions_sampl.Base.{
  Bool, true, false, Text, ℕ, List, Option, none, some, [], ◌∷◌, ◌++◌, if◌then◌else◌, take, codes,
  find,
}
use service_extensions_sampl.Base.Int.{ℤ, pos, negsuc, ltb_ℤ}
use service_extensions_sampl.Wasm.{
  request_headers, response_headers, FilterHeadersStatus, continue, stop_iteration, debug, error,
}
use service_extensions_sampl.Sdk.{Sdk, Act}

pub record Libraries : Type 0 where
  -- Whether the W3C expression compiles, and `FullMatch` with it: the trace id.
  pub is_compiled : Bool
  pub w3c_trace_id : Text → Option Text
  -- `SimpleAtoi` into an `int`
  pub simple_atoi : Text → Option ℤ
  -- `StrReplaceAll(text, replacements)`
  pub str_replace_all : Text → List (Text × Text) → Text

-- `kErrorTemplate`
abbrev error_template : Text
error_template =
    codes
      "\n<html>\n<head>\n  <title>Error {STATUS_CODE}</title>\n  <style>\n    body { font-family: sans-serif; margin: 2rem; }\n    .container { max-width: 800px; margin: 0 auto; }\n    .trace-id { \n      background-color: #f5f5f5; \n      padding: 1rem; \n      font-family: monospace;\n      word-break: break-all;\n      margin-top: 2rem;\n    }\n  </style>\n</head>\n<body>\n  <div class=\"container\">\n    <h1>Error {STATUS_CODE}</h1>\n    <p>We're sorry, something went wrong with your request.</p>\n    \n    <div class=\"trace-id\">\n      <strong>Trace ID:</strong> {TRACE_ID}\n    </div>\n    \n    <p>Please provide this trace ID to support for assistance.</p>\n  </div>\n</body>\n</html>\n"

-- The conversion to `uint32_t` in the call of `sendLocalResponse`, of a code that is 400 or more.
abbrev pub to_code : ℤ → ℕ
to_code (pos n) = n
to_code (negsuc n) = 0

-- `substr(0, find('/'))` where there is a slash.
unfoldable pub before_slash : Text → Text
before_slash trace_context = elim (find trace_context (codes "/")) [
  | none ↦ trace_context
  | some n ↦ take n trace_context
]

module _ (lib : Libraries) {S : Type 0} (sdk : Sdk S) where
  -- `onConfigure`
  unfoldable pub on_configure : Act S Bool
  on_configure s =
      if lib.is_compiled
      then (true, s)
      else (false, sdk.log error (codes "Failed to compile W3C traceparent regex") s)

  -- The part of `extractTraceId` for the W3C header.
  unfoldable pub w3c_trace : Option Text → Text
  w3c_trace none = codes "not-available"
  w3c_trace (some []) = codes "not-available"
  w3c_trace (some (c ∷ t)) = elim (lib.w3c_trace_id (c ∷ t)) [
    | none ↦ codes "not-available"
    | some id ↦ id
  ]

  -- `extractTraceId`
  unfoldable pub extract_trace_id : S → Text
  unfolding w3c_trace
  extract_trace_id s =
      let w3c = w3c_trace (sdk.get_header request_headers (codes "traceparent") s) in
      elim (sdk.get_header request_headers (codes "x-cloud-trace-context") s) [
        | none ↦ w3c
        | some [] ↦ w3c
        | some (c ∷ t) ↦ before_slash (c ∷ t)
      ]

  -- `onRequestHeaders`, with the new `trace_id_`.
  unfoldable pub on_request_headers : Act S (FilterHeadersStatus × Text)
  unfolding extract_trace_id
  on_request_headers s =
      let id = extract_trace_id s in
      ((continue, id), sdk.log debug (codes "Captured trace ID: " ++ id) s)

  -- `status_code`
  abbrev pub status_number : Text → ℤ
  status_number text = elim (lib.simple_atoi text) [ none ↦ pos 500 | some n ↦ n ]

  -- `error_page`
  abbrev error_page : Text → Text → Text
  error_page status_code trace_id =
      lib.str_replace_all error_template
        ((codes "{STATUS_CODE}", status_code) ∷ (codes "{TRACE_ID}", trace_id) ∷ [])

  -- `onResponseHeaders`
  unfoldable pub on_response_headers : Text → Act S FilterHeadersStatus
  on_response_headers trace_id s = elim (sdk.get_header response_headers (codes ":status") s) [
    | none ↦ (continue, s)
    | some status_code ↦
        let n = status_number status_code in
        if ltb_ℤ n 400 then (continue, s) else (
          stop_iteration,
          sdk.send_local_response (to_code n) [] (error_page status_code trace_id)
              ((codes "Content-Type", codes "text/html; charset=utf-8") ∷ []) s,
        )
  ]
