-- ===== src/Tests/LuaPassing.antt =====
-- The Lua plugin on concrete inputs: scripts that change headers after they have been passed on.
use service_extensions_sampl.Tests.Lua.{waiting}
use mathlib.Core.Option
use service_extensions_sampl.Base.{ℕ, ◌≡◌, refl, inl, true, false, some, [], ◌∷◌, arith, codes}
use service_extensions_sampl.Lua.Script.{
  asks_chunk, adds, wait_for_body_chunks, Reply, yields, Activity, Lua,
}
use service_extensions_sampl.Lua.Thread.{run, resume, finish}
use service_extensions_sampl.Lua.Thread.Laws.{Only}
use service_extensions_sampl.Lua.State.{new_coroutine}
use service_extensions_sampl.Lua.Api.{add, is_closed, status_of}
use service_extensions_sampl.Lua.Handle.{handle_call}
use service_extensions_sampl.Lua.Coroutine.{
  World, complete_if_ended, hand_over, offer, resume_with, resume_script,
}
use service_extensions_sampl.Lua.Coroutine.Events.{handle_body, handle_trailers, give_chunk}
use service_extensions_sampl.Lua.Coroutine.Laws.{Leaves}
use service_extensions_sampl.Lua.Coroutine.Passing.{
  IsHeaderView, Guarded, AsBefore, passed_on_headers_stay,
}
use service_extensions_sampl.Tests.Host.{Fake}
use service_extensions_sampl.Tests.Toy.{Toy, play, after_call, toy, toy_host, plain, guarded}

after_call-Only :
    (v : Toy) (a : Activity Toy) → Only Guarded a → (r : Reply) → Only Guarded (after_call v a r)
after_call-Only v a h (yields n) = tt
after_call-Only v a h (Reply.gives_header x) = h
after_call-Only v a h (Reply.gives_buffer x) = h
after_call-Only v a h (Reply.gives_status x) = h
after_call-Only v a h (Reply.gives_value x) = h
after_call-Only v a h (Reply.gives_number x) = h
after_call-Only v a h (Reply.gives_pairs x) = h
after_call-Only v a h (Reply.gives_bytes x) = h
after_call-Only v a h Reply.gives_nothing = h

-- Whenever it runs, this script tries to add a header to a guarded object, and waits for a chunk.
abbrev stubborn : Lua Toy
stubborn = record toy {
  resume = λ n v. play (adds guarded (codes "x") (codes "1") ∷ asks_chunk ∷ []) v;
}

stubborn-Only : (n : ℕ) (v : Toy) → Only Guarded (stubborn.resume n v)
stubborn-Only n v = (
  inl refl,
  after_call-Only (record v { plan = asks_chunk ∷ []; suspended = true }) (play (asks_chunk ∷ []) v)
      (tt, after_call-Only (record v { plan = []; suspended = true }) (play [] v) tt),
)

headers-IsHeaderView : IsHeaderView toy_host (λ s. s.headers)
headers-IsHeaderView = record {
  view-add = λ t k v s e. ground (arith, e);
  view-replace = λ t k v s e. ground (arith, e);
  view-remove = λ t k s e. refl;
  view-set_buffer = λ b i n t s. refl;
  view-log = λ l t s. refl;
  view-print = λ t s. refl;
}

abbrev passed : World Toy Fake
passed = record waiting {
  self = record waiting.self { headers_passed_on = true; yield_reason = wait_for_body_chunks };
}

passed_on_headers_stay_example :
    Leaves
      (AsBefore stubborn toy_host (λ s. s.headers) headers-IsHeaderView stubborn-Only [])
      (handle_body stubborn toy_host 9 3 false passed)
    × Leaves
        (AsBefore stubborn toy_host (λ s. s.headers) headers-IsHeaderView stubborn-Only [])
        (handle_trailers stubborn toy_host 9 3 passed)
passed_on_headers_stay_example =
    passed_on_headers_stay stubborn toy_host (λ s. s.headers) headers-IsHeaderView stubborn-Only []
      9 3 false passed (refl, refl)

-- The script of the finding: the headers went on, and then it adds one.
late_header_is_added :
    Option.map
      (λ p. p.1.outside.headers)
      (handle_body toy toy_host 9 3 false (record waiting {
        self = record waiting.self {
          headers_passed_on = true;
          yield_reason = wait_for_body_chunks;
        };
        thread = record waiting.thread {
          vm = record waiting.thread.vm { plan = adds plain (codes "x") (codes "1") ∷ [] };
        };
      }))
    ≡ some ((codes "x", codes "1") ∷ [])
unfolding handle_body give_chunk hand_over offer resume_with resume_script complete_if_ended resume
    run finish handle_call add is_closed status_of new_coroutine
late_header_is_added = refl
