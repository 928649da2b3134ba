-- ===== src/Lua/Coroutine/Passing.antt =====
-- plugins/samples/lua: headers that have been passed on do not change through an object that is
-- guarded, whatever the script does.
use service_extensions_sampl.Base.{Text, ℕ, ◌≡◌, ◌⊎◌, Bool, true, false, arith, if-both}
use service_extensions_sampl.Wasm.{HeaderMapType, BufferType, LogLevel}
use service_extensions_sampl.Lua.Status.{StatusOr, fine, failed}
use service_extensions_sampl.Lua.Script.{
  ExecutionState, Argument, Lua, Host, no_reason, Call, Header, asks_body, asks_headers,
  asks_trailers, asks_chunk, adds, replaces, removes, gets, counts, gets_at, lists, measures, reads,
  writes, logs, prints,
}
use service_extensions_sampl.Lua.Thread.{Thread}
use service_extensions_sampl.Lua.Thread.Laws.{Only, resume-keeps}
use service_extensions_sampl.Lua.State.{Coroutine, is_exited, yield}
use service_extensions_sampl.Lua.Api.{
  add, remove, replace, set_bytes, is_header_map, is_closed, status_of,
}
use service_extensions_sampl.Lua.Handle.{
  handle_call, ask_body, ask_headers, ask_trailers, ask_chunk,
}
use service_extensions_sampl.Lua.Coroutine.{World, offer, resume_script, outcome}
use service_extensions_sampl.Lua.Coroutine.Events.{handle_body, handle_trailers}
use service_extensions_sampl.Lua.Coroutine.Laws.{Leaves, handle_body-keeps, handle_trailers-keeps}

-- What the host shows of the headers is not changed by changes of trailers, by a buffer, by a log
-- message or by a line that is printed.
pub record IsHeaderView {S A : Type 0} (host : Host S) (view : S → A) : Type 0 where
  pub view-add :
      (t : HeaderMapType) (k v : Text) (s : S)
      → is_header_map t ≡ false
      → view (host.sdk.add_header t k v s).1 ≡ view s
  pub view-replace :
      (t : HeaderMapType) (k v : Text) (s : S)
      → is_header_map t ≡ false
      → view (host.sdk.replace_header t k v s).1 ≡ view s
  pub view-remove :
      (t : HeaderMapType) (k : Text) (s : S)
      → is_header_map t ≡ false
      → view (host.sdk.remove_header t k s).1 ≡ view s
  pub view-set_buffer :
      (b : BufferType) (i n : ℕ) (t : Text) (s : S)
      → view (host.sdk.set_buffer b i n t s).1 ≡ view s
  pub view-log : (l : LogLevel) (t : Text) (s : S) → view (host.sdk.log l t s) ≡ view s
  pub view-print : (t : Text) (s : S) → view (host.print t s) ≡ view s

-- A header is changed through a guarded object, or it is a trailer.
abbrev pub IsGuarded : Header → Type 0
IsGuarded h = (h.is_guarded ≡ true) ⊎ (is_header_map h.type ≡ false)

abbrev pub Guarded : Call → Type 0
Guarded (adds h k v) = IsGuarded h
Guarded (replaces h k v) = IsGuarded h
Guarded (removes h k) = IsGuarded h
Guarded _ = Unit

module _ {V S A : Type 0} (lua : Lua V) (host : Host S) (view : S → A)
    (law : IsHeaderView host view) (only : (n : ℕ) (v : V) → Only Guarded (lua.resume n v))
    (x : A) where
  abbrev Kept : Coroutine × S → Type 0
  Kept (c, s) = (c.headers_passed_on ≡ true) × (view s ≡ x)

  add-view :
      (h : Header) (k v : Text) (s : S) → IsGuarded h → view (add host true h k v s).1 ≡ view s
  unfolding add is_closed status_of
  add-view h k v s g = ground (arith, g, law.view-add h.type k v s)

  replace-view :
      (h : Header) (k v : Text) (s : S) → IsGuarded h → view (replace host true h k v s).1 ≡ view s
  unfolding replace is_closed status_of
  replace-view h k v s g = ground (arith, g, law.view-replace h.type k v s)

  remove-view :
      (h : Header) (k : Text) (s : S) → IsGuarded h → view (remove host true h k s).1 ≡ view s
  unfolding remove is_closed status_of
  remove-view h k s g = ground (arith, g, law.view-remove h.type k s)

  set_bytes-view : (b : BufferType) (t : Text) (s : S) → view (set_bytes host b t s).1 ≡ view s
  unfolding set_bytes status_of
  set_bytes-view b t s = ground (arith, law.view-set_buffer b 0 (host.get_buffer_status b s).1 t s)

  call-Kept :
      (call : Call) (e : Coroutine × S) → Guarded call → Kept e → Kept (handle_call host call e).1
  unfolding handle_call ask_body ask_headers ask_trailers ask_chunk yield
  call-Kept asks_body (c, s) g h = ground (arith, h)
  call-Kept asks_headers (c, s) g h = ground (arith, h)
  call-Kept asks_trailers (c, s) g h = ground (arith, h)
  call-Kept asks_chunk (c, s) g h = h
  call-Kept (adds y k v) (c, s) g h = (h.0, rw (h.0, add-view y k v s g) h.1)
  call-Kept (replaces y k v) (c, s) g h = (h.0, rw (h.0, replace-view y k v s g) h.1)
  call-Kept (removes y k) (c, s) g h = (h.0, rw (h.0, remove-view y k s g) h.1)
  call-Kept (gets y k) (c, s) g h = h
  call-Kept (counts y k) (c, s) g h = h
  call-Kept (gets_at y k i) (c, s) g h = h
  call-Kept (lists y) (c, s) g h = h
  call-Kept (measures b) (c, s) g h = h
  call-Kept (reads b i n) (c, s) g h = h
  call-Kept (writes b t) (c, s) g h = (h.0, rw (set_bytes-view b t s) h.1)
  call-Kept (logs l t) (c, s) g h = (h.0, rw (law.view-log l t s) h.1)
  call-Kept (prints t) (c, s) g h = (h.0, rw (law.view-print t s) h.1)

  -- The headers have been passed on, and look as before.
  abbrev pub AsBefore : World V S → Type 0
  AsBefore w = (w.self.headers_passed_on ≡ true) × (view w.outside ≡ x)

  outcome-AsBefore :
      (w : World V S) (r : StatusOr ExecutionState) (t : Thread V) (e : Coroutine × S)
      → Kept e
      → AsBefore (outcome w (r, t, e)).1
  outcome-AsBefore w (failed q) t e h = h
  outcome-AsBefore w (fine y) t e h = h

  resume_script-AsBefore :
      (n : ℕ) (w : World V S) → AsBefore w → AsBefore (resume_script lua host n w).1
  unfolding resume_script
  resume_script-AsBefore n w h =
      let c = record w.self { yield_reason = no_reason } in
      if-both {A = StatusOr ExecutionState × World V S} (λ q. AsBefore q.1) (is_exited w.self.state)
        _ _ h
        (outcome-AsBefore w _ _ _ (
          resume-keeps lua (handle_call host) Guarded Kept call-Kept only n w.thread (c, w.outside)
            h))

  offer-AsBefore :
      (complaint : Text) (a : Argument) (w : World V S)
      → AsBefore w
      → AsBefore (offer lua host complaint a w).1
  unfolding offer
  offer-AsBefore complaint a w h = ground (arith, h)

  -- Once the headers have been passed on, a script that changes headers only through guarded objects
  -- leaves them as they are in every later body and trailers event.
  pub passed_on_headers_stay :
      (fuel n : ℕ) (end_of_stream : Bool) (w : World V S)
      → AsBefore w
      → Leaves AsBefore (handle_body lua host fuel n end_of_stream w)
        × Leaves AsBefore (handle_trailers lua host fuel n w)
  passed_on_headers_stay fuel n end_of_stream w h = (
    handle_body-keeps lua host AsBefore offer-AsBefore resume_script-AsBefore (λ v k. k) fuel n
        end_of_stream w h (ground (arith, h)),
    handle_trailers-keeps lua host AsBefore offer-AsBefore resume_script-AsBefore (λ v k. k) fuel n
        w h (λ e. h),
  )
