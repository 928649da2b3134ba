-- ===== src/Wasm.antt =====
-- The enumerations of the Proxy-Wasm interface that plugins and host share. They are declared in
-- the Proxy-Wasm SDK, which is not in the repository; only the names are used here.
use mathlib.Core.Bool.{Bool, true, false}

pub data HeaderMapType : Type 0 where
  request_headers request_trailers response_headers response_trailers : HeaderMapType
  grpc_receive_initial_metadata grpc_receive_trailing_metadata : HeaderMapType

pub data BufferType : Type 0 where
  http_request_body http_response_body plugin_configuration other_buffer : BufferType

pub data WasmResult : Type 0 where
  ok not_found bad_argument invalid_memory_access other_result : WasmResult

pub data FilterHeadersStatus : Type 0 where
  continue stop_iteration continue_and_end_stream : FilterHeadersStatus
  stop_all_iteration_and_buffer stop_all_iteration_and_watermark : FilterHeadersStatus

pub data FilterDataStatus : Type 0 where
  continue_data stop_iteration_and_buffer : FilterDataStatus
  stop_iteration_and_watermark stop_iteration_no_buffer : FilterDataStatus

pub data LogLevel : Type 0 where
  trace debug info warn error critical : LogLevel

-- What a call that gives a value returns: the value, or the result code of the failure.
pub data Answer {ℓ} (A : Type ℓ) : Type ℓ where
  value : A → Answer A
  refused : WasmResult → Answer A

-- `==` of two header maps.
abbrev pub same_map : HeaderMapType → HeaderMapType → Bool
same_map request_headers request_headers = true
same_map request_trailers request_trailers = true
same_map response_headers response_headers = true
same_map response_trailers response_trailers = true
same_map grpc_receive_initial_metadata grpc_receive_initial_metadata = true
same_map grpc_receive_trailing_metadata grpc_receive_trailing_metadata = true
same_map _ _ = false

pub data FilterTrailersStatus : Type 0 where
  continue_trailers stop_iteration_trailers : FilterTrailersStatus
