-- ===== src/Lua/Metrics.antt =====
-- plugins/samples/lua/envoy_lua_api.cc: `Counter`, `Gauge` and `Histogram`. An amount is an `int64`.
pub mod Laws
use service_extensions_sampl.Base.{Text, codes, ℕ, zero, suc, ◌-◌, ◌^◌, ◌++◌, if◌then◌else◌}
use service_extensions_sampl.Base.Int.{ℤ, pos, negsuc}
use service_extensions_sampl.Wasm.{WasmResult}
use service_extensions_sampl.Sdk.{is_ok}
use service_extensions_sampl.Lua.Status.{internal, invalid_argument, StatusOr, fine, error_of}

pub record MetricHost (S : Type 0) : Type 0 where
  -- `incrementMetric(id, offset)`, `recordMetric(id, value)` and `getMetric(id, &value)`
  pub increment_metric : ℕ → ℤ → S → WasmResult × S
  pub record_metric : ℕ → ℕ → S → WasmResult × S
  pub get_metric : ℕ → S → WasmResult × ℕ
  pub to_text : WasmResult → Text

-- `-amount` of an amount that is not negative.
abbrev pub negated : ℕ → ℤ
negated zero = pos 0
negated (suc n) = negsuc n

-- An `int64` passed as a `uint64`.
abbrev pub as_uint64 : ℤ → ℕ
as_uint64 (pos n) = n
as_uint64 (negsuc n) = 2 ^ 64 - suc n

module _ {S : Type 0} (host : MetricHost S) where
  abbrev checked : Text → WasmResult × S → StatusOr Unit × S
  checked complaint (result, s) =
      (if is_ok result then fine tt else error_of internal (complaint ++ host.to_text result), s)

  abbrev value_or : Text → WasmResult × ℕ → StatusOr ℕ
  value_or complaint (result, value) =
      if is_ok result then fine value else error_of internal (complaint ++ host.to_text result)

  unfoldable pub counter_inc : ℕ → S → StatusOr Unit × S
  counter_inc id s =
      checked (codes "Failed to increment counter: ") (host.increment_metric id (pos 1) s)

  unfoldable pub counter_add : ℕ → ℤ → S → StatusOr Unit × S
  counter_add id (negsuc n) s =
      (error_of invalid_argument (codes "Failed to add to counter: amount cannot be negative"), s)
  counter_add id (pos n) s =
      checked (codes "Failed to add to counter: ") (host.increment_metric id (pos n) s)

  unfoldable pub counter_get_value : ℕ → S → StatusOr ℕ
  counter_get_value id s = value_or (codes "Failed to get counter value: ") (host.get_metric id s)

  unfoldable pub gauge_inc : ℕ → S → StatusOr Unit × S
  gauge_inc id s =
      checked (codes "Failed to increment gauge: ") (host.increment_metric id (pos 1) s)

  unfoldable pub gauge_dec : ℕ → S → StatusOr Unit × S
  gauge_dec id s =
      checked (codes "Failed to decrement gauge: ") (host.increment_metric id (negsuc 0) s)

  unfoldable pub gauge_add : ℕ → ℤ → S → StatusOr Unit × S
  gauge_add id (negsuc n) s =
      (error_of invalid_argument (codes "Failed to add to gauge: amount cannot be negative"), s)
  gauge_add id (pos n) s =
      checked (codes "Failed to add to gauge: ") (host.increment_metric id (pos n) s)

  unfoldable pub gauge_sub : ℕ → ℤ → S → StatusOr Unit × S
  gauge_sub id (negsuc n) s = (
    error_of invalid_argument (codes "Failed to subtract from gauge: amount cannot be negative"),
    s,
  )
  gauge_sub id (pos n) s =
      checked (codes "Failed to subtract from gauge: ") (host.increment_metric id (negated n) s)

  unfoldable pub gauge_set : ℕ → ℤ → S → StatusOr Unit × S
  gauge_set id (negsuc n) s =
      (error_of invalid_argument (codes "Failed to set gauge: value cannot be negative"), s)
  gauge_set id (pos n) s = checked (codes "Failed to set gauge: ") (host.record_metric id n s)

  unfoldable pub gauge_get_value : ℕ → S → StatusOr ℕ
  gauge_get_value id s = value_or (codes "Failed to get gauge: ") (host.get_metric id s)

  unfoldable pub record_value : ℕ → ℤ → S → StatusOr Unit × S
  record_value id value s =
      checked (codes "Failed to record histogram: ") (host.record_metric id (as_uint64 value) s)
