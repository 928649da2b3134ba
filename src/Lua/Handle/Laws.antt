-- ===== src/Lua/Handle/Laws.antt =====
-- What a call of a script leaves of its coroutine and of the host.
use service_extensions_sampl.Base.{◌≡◌, arith}
use service_extensions_sampl.Lua.Script.{
  Call, asks_body, asks_headers, asks_trailers, asks_chunk, adds, replaces, removes, gets, counts,
  gets_at, lists, measures, reads, writes, logs, prints, Host,
}
use service_extensions_sampl.Lua.State.{Coroutine, yield}
use service_extensions_sampl.Lua.Handle.{
  ask_body, ask_headers, ask_trailers, ask_chunk, handle_call,
}

-- The two coroutines differ at most in the state, the yield reason and the flag of the chunk.
abbrev pub Frame : Coroutine → Coroutine → Type 0
Frame c c' = c' ≡ record c {
  state = c'.state;
  yield_reason = c'.yield_reason;
  body_chunk_consumed = c'.body_chunk_consumed;
}

pub handle_call-Frame :
    {S : Type 0} (host : Host S) (call : Call) (c₀ c : Coroutine) (s : S)
    → Frame c₀ c
    → Frame c₀ (handle_call host call (c, s)).1.0
unfolding handle_call ask_body ask_headers ask_trailers ask_chunk yield
handle_call-Frame host asks_body c₀ c s h = ground arith
handle_call-Frame host asks_headers c₀ c s h = ground arith
handle_call-Frame host asks_trailers c₀ c s h = ground arith
handle_call-Frame host asks_chunk c₀ c s h = ground arith
handle_call-Frame host (adds x k v) c₀ c s h = h
handle_call-Frame host (replaces x k v) c₀ c s h = h
handle_call-Frame host (removes x k) c₀ c s h = h
handle_call-Frame host (gets x k) c₀ c s h = h
handle_call-Frame host (counts x k) c₀ c s h = h
handle_call-Frame host (gets_at x k i) c₀ c s h = h
handle_call-Frame host (lists x) c₀ c s h = h
handle_call-Frame host (measures b) c₀ c s h = h
handle_call-Frame host (reads b i n) c₀ c s h = h
handle_call-Frame host (writes b t) c₀ c s h = h
handle_call-Frame host (logs l t) c₀ c s h = h
handle_call-Frame host (prints t) c₀ c s h = h
