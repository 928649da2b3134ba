-- ===== src/Lua/Metrics/Laws.antt =====
-- plugins/samples/lua/envoy_lua_api.cc: a counter never goes down.
use service_extensions_sampl.Base.{ℕ, ◌+◌, ◌≤◌, ◌≡◌, ◌⊎◌, arith}
use service_extensions_sampl.Base.Int.{ℤ, pos, negsuc}
use service_extensions_sampl.Lua.Metrics.{MetricHost, counter_inc, counter_add}

-- An increment adds its offset, or is refused and changes nothing. Values are not negative: what would
-- go below 0 stops there.
pub record IsCounting {S : Type 0} (host : MetricHost S) (count : ℕ → S → ℕ) : Type 0 where
  pub count-up :
      (id n : ℕ) (s : S)
      → (count id (host.increment_metric id (pos n) s).1 ≡ count id s + n)
        ⊎ (count id (host.increment_metric id (pos n) s).1 ≡ count id s)

module _ {S : Type 0} (host : MetricHost S) (count : ℕ → S → ℕ) (law : IsCounting host count) where
  -- No amount that a script adds to a counter makes it go down.
  pub counter_never_falls :
      (id : ℕ) (amount : ℤ) (s : S)
      → (count id s ≤ count id (counter_add host id amount s).1)
        × (count id s ≤ count id (counter_inc host id s).1)
  unfolding counter_add counter_inc
  counter_never_falls id (negsuc n) s = (omega arith, omega (arith, law.count-up id 1 s))
  counter_never_falls id (pos n) s =
      (omega (arith, law.count-up id n s), omega (arith, law.count-up id 1 s))
