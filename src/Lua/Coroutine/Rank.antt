-- ===== src/Lua/Coroutine/Rank.antt =====
-- plugins/samples/lua/coroutine.cc: a round of `RunToCompletion` lowers the rank of the script, which
-- bounds how often the script will still wait.
use service_extensions_sampl.Base.{
  Text, ℕ, ◌≤◌, ◌<◌, ◌≡◌, refl, ◌⊎◌, inl, inr, Bool, true, false, not, ◌&&◌, Option, none, some,
  arith, if-both, if-cases,
}
use service_extensions_sampl.Lua.Status.{StatusOr, fine, failed, is_fine}
use service_extensions_sampl.Lua.Script.{
  ExecutionState, exited, yielded, Argument, Lua, Host, YieldReason, Activity, ends, calls, Call,
  Reply, no_reason, wait_for_headers, wait_for_body, ReturnCode, returns_ok, returns_yield,
  returns_error, wait_for_body_chunks, wait_for_trailers, wait_for_http, wait_to_start, responded,
}
use service_extensions_sampl.Lua.Thread.{Thread, run, finish, resume}
use service_extensions_sampl.Lua.Thread.Laws.{is_yielded}
use service_extensions_sampl.Lua.State.{Coroutine, is_exited}
use service_extensions_sampl.Lua.Handle.{handle_call}
use service_extensions_sampl.Lua.Coroutine.{
  World, offer, resume_script, resume_with, offered, chunk_consumed, hand_over, hand_round,
  round_for, Round, stops, goes_on, round_of, forget, outcome, as_it_is, then_do,
}

-- Wherever the activity waits, the rank is below `k`.
abbrev pub Falls : {V : Type 0} → (V → ℕ) → ℕ → Activity V → Type 0
Falls rank k (ends returns_yield v) = rank v < k
Falls rank k (ends code v) = Unit
Falls rank k (calls c next) = (r : Reply) → Falls rank k (next r)

pub record Tires {V : Type 0} (lua : Lua V) (rank : V → ℕ) : Type 0 where
  pub push_falls : (a : Argument) (v : V) → rank (lua.push a v).1 ≤ rank v
  pub resume_falls : (n : ℕ) (v : V) → Falls rank (rank v) (lua.resume n v)

-- Whether the coroutine waits for a part of the stream that `RunToCompletion` gives it.
abbrev pub is_stream_wait : YieldReason → Bool
is_stream_wait wait_for_body = true
is_stream_wait wait_for_body_chunks = true
is_stream_wait wait_for_trailers = true
is_stream_wait _ = false

abbrev pub IsSettled : {V S : Type 0} → World V S → Type 0
IsSettled w = (is_exited w.self.state ≡ true) ⊎ (is_stream_wait w.self.yield_reason ≡ false)

-- Exited, or of a rank below `k`.
abbrev pub IsBelow : {V S : Type 0} → (V → ℕ) → ℕ → World V S → Type 0
IsBelow rank k w = (is_exited w.self.state ≡ true) ⊎ (rank w.thread.vm < k)

abbrev pub Handed : {V S : Type 0} → (V → ℕ) → World V S → StatusOr Unit × World V S → Type 0
Handed rank w (r, w') =
    is_fine r ≡ true → (is_exited w.self.state ≡ false) × IsBelow rank (rank w.thread.vm) w'

-- The flag of the chunk, or nothing.
abbrev pub KeepsState : (Coroutine → Coroutine) → Type 0
KeepsState change = (c : Coroutine) → (change c).state ≡ c.state

-- A round goes on from a settled rank, or stops because it failed or has nothing to give.
abbrev pub Stopped : {V S : Type 0} → (V → ℕ) → World V S → Round (World V S) → Type 0
Stopped rank w (goes_on w') = IsBelow rank (rank w.thread.vm) w'
Stopped rank w (stops r w') = is_fine r ≡ true → IsSettled w'

module _ {V S : Type 0} (lua : Lua V) (host : Host S) (rank : V → ℕ) (tires : Tires lua rank) where
  abbrev Fell : ℕ → ReturnCode × V → Type 0
  Fell k (returns_yield, v) = rank v < k
  Fell k (code, v) = Unit

  run-Fell :
      {E : Type 0} (handler : Call → E → Reply × E) (k : ℕ) (a : Activity V) (e : E)
      → Falls rank k a
      → Fell k (run handler a e).0
  unfolding run
  run-Fell handler k (ends returns_ok v) e h = tt
  run-Fell handler k (ends returns_yield v) e h = h
  run-Fell handler k (ends returns_error v) e h = tt
  run-Fell handler k (calls c next) e h =
      run-Fell handler k (next (handler c e).0) (handler c e).1 (h (handler c e).0)

  finish-falls :
      (k : ℕ) (code : ReturnCode) (v : V)
      → Fell k (code, v)
      → is_yielded (finish lua code v).0 ≡ true
      → rank (finish lua code v).1.vm < k
  unfolding finish
  finish-falls k returns_ok v h y = cc
  finish-falls k returns_yield v h y = h
  finish-falls k returns_error v h y = cc

  resume-falls :
      (n : ℕ) (t : Thread V) (e : Coroutine × S)
      → is_yielded (resume lua (handle_call host) n t e).0 ≡ true
      → rank (resume lua (handle_call host) n t e).1.vm < rank t.vm
  unfolding resume
  resume-falls n t e = ground (
    arith,
    finish-falls (rank t.vm) (run (handle_call host) (lua.resume n t.vm) e).0.0
        (run (handle_call host) (lua.resume n t.vm) e).0.1
        (run-Fell (handle_call host) (rank t.vm) (lua.resume n t.vm) e (tires.resume_falls n t.vm)),
  )

  outcome-IsBelow :
      (k : ℕ) (w : World V S) (r : StatusOr ExecutionState) (t : Thread V) (c : Coroutine) (s : S)
      → (is_yielded r ≡ true → rank t.vm < k)
      → is_fine (outcome w (r, t, (c, s))).0 ≡ true
      → IsBelow rank k (outcome w (r, t, (c, s))).1
  outcome-IsBelow k w (failed e) t c s h f = cc
  outcome-IsBelow k w (fine exited) t c s h f = inl refl
  outcome-IsBelow k w (fine yielded) t c s h f = inr (h refl)

  -- A resume that succeeds was not of an exited coroutine, and lowers the rank.
  abbrev Resumed : World V S → StatusOr ExecutionState × World V S → Type 0
  Resumed w (r, w') =
      is_fine r ≡ true → (is_exited w.self.state ≡ false) × IsBelow rank (rank w.thread.vm) w'

  resume_script-Resumed : (n : ℕ) (w : World V S) → Resumed w (resume_script lua host n w)
  unfolding resume_script
  resume_script-Resumed n w =
      let c = record w.self { yield_reason = no_reason } in
      if-cases {A = StatusOr ExecutionState × World V S} (Resumed w) (is_exited w.self.state) _ _
        (λ e f. cc)
        (λ e f. (
          e,
          outcome-IsBelow (rank w.thread.vm) w _ _ _ _ (resume-falls n w.thread (c, w.outside)) f,
        ))

  pub IsBelow-raise : (j k : ℕ) (w : World V S) → j ≤ k → IsBelow rank j w → IsBelow rank k w
  IsBelow-raise j k w h (inl e) = inl e
  IsBelow-raise j k w h (inr l) = inr (omega (arith, l, h))

  forget-Handed :
      (w v : World V S) (p : StatusOr ExecutionState × World V S)
      → v.self.state ≡ w.self.state
      → rank v.thread.vm ≤ rank w.thread.vm
      → Resumed v p
      → Handed rank w (forget p.0, p.1)
  forget-Handed w v (failed e, w') q l h f = cc
  forget-Handed w v (fine x, w') q l h f =
      let (a, b) = h refl in
      (rw (← q) a, IsBelow-raise (rank v.thread.vm) (rank w.thread.vm) w' l b)

  resume_with-Handed :
      (change : Coroutine → Coroutine) (w : World V S)
      → KeepsState change
      → Handed rank w (resume_with lua host change w)
  unfolding resume_with
  resume_with-Handed change w keeps =
      forget-Handed w (record w { self = change w.self })
        (resume_script lua host 1 (record w { self = change w.self })) (keeps w.self) (omega arith)
        (resume_script-Resumed 1 (record w { self = change w.self }))

  pub hand_over-Handed :
      (complaint : Text) (a : Argument) (change : Coroutine → Coroutine) (w : World V S)
      → KeepsState change
      → Handed rank w (hand_over lua host complaint a change w)
  unfolding hand_over offer
  hand_over-Handed complaint a change w keeps =
      after (lua.push a w.thread.vm) (tires.push_falls a w.thread.vm)
    where
      after :
          (p : Option Text × V)
          → rank p.1 ≤ rank w.thread.vm
          → Handed rank w (then_do (offered complaint w p) (resume_with lua host change))
      after (some message, v) h f = cc
      after (none, v) h f =
          let w' : World V S = record w { thread = record w.thread { vm = v } } in
          let (x, y) = resume_with-Handed change w' keeps f in
          (x, IsBelow-raise (rank v) (rank w.thread.vm) (resume_with lua host change w').1 h y)

  round_of-Stopped :
      (w : World V S) (p : StatusOr Unit × World V S)
      → Handed rank w p
      → Stopped rank w (round_of p)
  round_of-Stopped w (failed e, w') h = λ f. cc
  round_of-Stopped w (fine _, w') h = (h refl).1

  hand_round-Stopped :
      (complaint : Text) (a : Argument) (change : Coroutine → Coroutine) (w : World V S)
      → KeepsState change
      → Stopped rank w (hand_round lua host complaint a change w)
  unfolding hand_round
  hand_round-Stopped complaint a change w keeps =
      round_of-Stopped w (hand_over lua host complaint a change w)
        (hand_over-Handed complaint a change w keeps)

  pub round_for-Stopped :
      (x : YieldReason) (w : World V S)
      → w.self.yield_reason ≡ x
      → Stopped rank w (round_for lua host x w)
  unfolding round_for
  round_for-Stopped wait_for_body_chunks w e =
      if-both (Stopped rank w) (not w.self.body_chunk_consumed && w.self.has_body_data) _ _
        (hand_round-Stopped _ _ chunk_consumed w (λ c. refl))
        (hand_round-Stopped _ _ as_it_is w (λ c. refl))
  round_for-Stopped wait_for_body w e = hand_round-Stopped _ _ as_it_is w (λ c. refl)
  round_for-Stopped wait_for_trailers w e = hand_round-Stopped _ _ as_it_is w (λ c. refl)
  round_for-Stopped no_reason w e = λ f. inr (rw e refl)
  round_for-Stopped wait_for_headers w e = λ f. inr (rw e refl)
  round_for-Stopped wait_for_http w e = λ f. inr (rw e refl)
  round_for-Stopped wait_to_start w e = λ f. inr (rw e refl)
  round_for-Stopped responded w e = λ f. inr (rw e refl)
