-- ===== src/Lua/Coroutine/Completion.antt =====
-- plugins/samples/lua/coroutine.cc: the loop of `RunToCompletion` ends for every script that waits
-- only so often.
use mathlib.Core.Option
use service_extensions_sampl.Base.{
  Text, ℕ, zero, suc, ◌+◌, ◌-◌, ◌<◌, ◌≡◌, refl, ◌⊎◌, inl, inr, Bool, true, false, not, Option, none,
  some, arith, if-both, if-cases,
}
use service_extensions_sampl.Lua.Status.{StatusOr, fine, failed, is_fine}
use service_extensions_sampl.Lua.Script.{Argument, Lua, Host}
use service_extensions_sampl.Lua.State.{Coroutine, is_exited}
use service_extensions_sampl.Lua.Coroutine.{
  World, chunk_consumed, hand_over, round_for, run_to_completion, complete, complete_if_ended,
  Round, stops, goes_on, next_round, as_it_is, headers_arrive, body_arrives, trailers_arrive,
  then_do, returning,
}
use service_extensions_sampl.Lua.Coroutine.Events.{
  handle_headers, handle_body, handle_trailers, hand_over_if, give_body, give_nil, give_trailers,
  give_headers, give_chunk,
}
use service_extensions_sampl.Lua.Coroutine.Frames.{give_headers-ended, give_chunk-ended}
use service_extensions_sampl.Lua.Coroutine.Rank.{
  Tires, IsSettled, IsBelow, KeepsState, Stopped, IsBelow-raise, hand_over-Handed,
  round_for-Stopped,
}

-- There is a result, and if it is no error, the world in it is settled.
abbrev pub Settles : {A V S : Type 0} → Option (StatusOr A × World V S) → Type 0
Settles none = ⊥
Settles (some (r, w)) = is_fine r ≡ true → IsSettled w

module _ {V S : Type 0} (lua : Lua V) (host : Host S) (rank : V → ℕ) (tires : Tires lua rank) where
  abbrev HasFuel : ℕ → World V S → Type 0
  HasFuel fuel w = (0 < fuel) × ((is_exited w.self.state ≡ true) ⊎ (rank w.thread.vm + 1 < fuel))

  next_round-Settles :
      (fuel : ℕ) (w : World V S) (ρ : Round (World V S))
      (again : World V S → Option (StatusOr Unit × World V S))
      → ((v : World V S) → HasFuel fuel v → Settles (again v))
      → rank w.thread.vm + 1 < suc fuel
      → Stopped rank w ρ
      → Settles (next_round again ρ)
  next_round-Settles fuel w (stops r w') again more h s = s
  next_round-Settles fuel w (goes_on w') again more h (inl e) = more w' (omega arith, inl e)
  next_round-Settles fuel w (goes_on w') again more h (inr l) =
      more w' (omega arith, inr (omega (arith, l)))

  run_to_completion-Settles :
      (fuel : ℕ) (w : World V S) → HasFuel fuel w → Settles (run_to_completion lua host fuel w)
  unfolding run_to_completion
  run_to_completion-Settles zero w h = absurd (omega (arith, h.0))
  run_to_completion-Settles (suc fuel) w h =
      if-cases Settles (is_exited w.self.state) _ _ (λ e f. inl e)
        (λ e.
          next_round-Settles fuel w (round_for lua host w.self.yield_reason w)
            (run_to_completion lua host fuel) (run_to_completion-Settles fuel) (enough e h.1)
            (round_for-Stopped lua host rank tires w.self.yield_reason w refl))
    where
      enough :
          is_exited w.self.state ≡ false
          → (is_exited w.self.state ≡ true) ⊎ (rank w.thread.vm + 1 < suc fuel)
          → rank w.thread.vm + 1 < suc fuel
      enough e (inl x) = cc
      enough e (inr l) = l

  returning-Settles :
      (o : Option (StatusOr Unit × World V S)) → Settles o → Settles (Option.map returning o)
  returning-Settles none h = h
  returning-Settles (some (failed e, w)) h = h
  returning-Settles (some (fine _, w)) h = h

  -- A part of an event, within a rank below `k` as long as nothing fails.
  abbrev Within : ℕ → StatusOr Unit × World V S → Type 0
  Within k (r, w) = is_fine r ≡ true → IsBelow rank k w

  complete-Settles :
      (fuel : ℕ) (p : StatusOr Unit × World V S)
      → 0 < fuel
      → Within (fuel - 1) p
      → Settles (complete lua host fuel p)
  unfolding complete
  complete-Settles fuel (failed e, w) g h = λ f. cc
  complete-Settles fuel (fine _, w) g h =
      returning-Settles (run_to_completion lua host fuel w)
        (run_to_completion-Settles fuel w (g, room (h refl)))
    where
      room :
          IsBelow rank (fuel - 1) w
          → (is_exited w.self.state ≡ true) ⊎ (rank w.thread.vm + 1 < fuel)
      room (inl e) = inl e
      room (inr l) = inr (omega (arith, l))

  complete_if_ended-Settles :
      (fuel : ℕ) (p : StatusOr Unit × World V S)
      → 0 < fuel
      → p.1.self.stream_ended ≡ true
      → Within (fuel - 1) p
      → Settles (complete_if_ended lua host fuel p)
  unfolding complete_if_ended
  complete_if_ended-Settles fuel (failed e, w) g d h = λ f. cc
  complete_if_ended-Settles fuel (fine _, w) g d h =
      if-cases Settles w.self.stream_ended _ _ (λ e. complete-Settles fuel (fine tt, w) g h)
        (λ e. cc)

  then_do-Within :
      (k : ℕ) (p : StatusOr Unit × World V S) (next : World V S → StatusOr Unit × World V S)
      → Within k p
      → ((w : World V S) → IsBelow rank k w → Within k (next w))
      → Within k (then_do p next)
  then_do-Within k (failed e, w) next h more = λ f. cc
  then_do-Within k (fine _, w) next h more = more w (h refl)

  hand_over_if-Within :
      (k : ℕ) (b : Bool) (complaint : Text) (a : Argument) (change : Coroutine → Coroutine)
      (w : World V S)
      → KeepsState change
      → IsBelow rank k w
      → Within k (hand_over_if lua host b complaint a change w)
  hand_over_if-Within k false complaint a change w keeps h = λ f. h
  hand_over_if-Within k true complaint a change w keeps (inl e) =
      λ f. let (x, y) = hand_over-Handed lua host rank tires complaint a change w keeps f in cc
  hand_over_if-Within k true complaint a change w keeps (inr l) = λ f.
      let (x, y) = hand_over-Handed lua host rank tires complaint a change w keeps f in
      IsBelow-raise lua host rank tires (rank w.thread.vm) k
        (hand_over lua host complaint a change w).1 (omega (arith, l)) y

  give_headers-Within :
      (k : ℕ) (w : World V S) → IsBelow rank k w → Within k (give_headers lua host w)
  unfolding give_headers
  give_headers-Within k w h = hand_over_if-Within k _ _ _ as_it_is w (λ c. refl) h

  give_chunk-Within : (k : ℕ) (w : World V S) → IsBelow rank k w → Within k (give_chunk lua host w)
  unfolding give_chunk
  give_chunk-Within k w h = hand_over_if-Within k _ _ _ chunk_consumed w (λ c. refl) h

  give_body-Within : (k : ℕ) (w : World V S) → IsBelow rank k w → Within k (give_body lua host w)
  unfolding give_body
  give_body-Within k w h = hand_over_if-Within k _ _ _ as_it_is w (λ c. refl) h

  give_nil-Within : (k : ℕ) (w : World V S) → IsBelow rank k w → Within k (give_nil lua host w)
  unfolding give_nil
  give_nil-Within k w h = hand_over_if-Within k _ _ _ as_it_is w (λ c. refl) h

  give_trailers-Within :
      (k : ℕ) (w : World V S) → IsBelow rank k w → Within k (give_trailers lua host w)
  unfolding give_trailers
  give_trailers-Within k w h = hand_over_if-Within k _ _ _ as_it_is w (λ c. refl) h

  -- With more fuel than the rank of the script by two, the event that ends a stream has a result. If
  -- it is no error, the script has exited or no longer waits for a body, chunks or trailers.
  pub last_event-Settles :
      (fuel n : ℕ) (w : World V S)
      → rank w.thread.vm + 1 < fuel
      → Settles (handle_headers lua host fuel n true w)
        × Settles (handle_body lua host fuel n true w)
        × Settles (handle_trailers lua host fuel n w)
  unfolding handle_headers handle_body handle_trailers
  last_event-Settles fuel n w h = (
    complete_if_ended-Settles fuel _ (omega (arith, h))
        (give_headers-ended lua host (record w { self = headers_arrive true w.self }) refl)
        (give_headers-Within (fuel - 1) (record w { self = headers_arrive true w.self })
          (inr (omega (arith, h)))),
    if-both Settles w.self.stream_ended _ _ (λ f. cc)
        (if-cases Settles (is_exited (body_arrives n true w.self).state) _ _ (λ e f. inl e)
          (λ e.
            complete_if_ended-Settles fuel _ (omega (arith, h))
              (give_chunk-ended lua host (record w { self = body_arrives n true w.self })
                (ground arith))
              (give_chunk-Within (fuel - 1) (record w { self = body_arrives n true w.self })
                (inr (omega (arith, h)))))),
    if-both Settles w.self.stream_ended _ _ (λ f. cc)
        (if-both Settles (not w.self.received_headers) _ _ (λ f. cc)
          (if-both Settles w.self.received_trailers _ _ (λ f. cc)
            (if-cases Settles (is_exited w.self.state) _ _ (λ e f. inl e)
              (λ e. complete-Settles fuel _ (omega (arith, h)) (
                then_do-Within (fuel - 1) _ (give_trailers lua host)
                  (then_do-Within (fuel - 1) _ (give_nil lua host)
                    (give_body-Within (fuel - 1) (record w { self = trailers_arrive w.self })
                      (inr (omega (arith, h))))
                    (give_nil-Within (fuel - 1)))
                  (give_trailers-Within (fuel - 1))))))),
  )
