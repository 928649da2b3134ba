-- ===== src/Lua/Coroutine/Laws.antt =====
-- plugins/samples/lua/coroutine.cc: a property of the world that pushes, resumes and the flag of the
-- chunk keep is kept by every event, once the event has set its own fields.
use mathlib.Core.Option
use service_extensions_sampl.Base.{
  Text, ◌≡◌, ℕ, zero, suc, Bool, true, false, not, ◌&&◌, ◌||◌, Option, none, some, arith,
  if◌then◌else◌, if-both, if-cases,
}
use service_extensions_sampl.Lua.Status.{StatusOr, fine, failed}
use service_extensions_sampl.Lua.Script.{
  Argument, Lua, Host, YieldReason, no_reason, wait_for_headers, wait_for_body,
  wait_for_body_chunks, wait_for_trailers, wait_for_http, wait_to_start, responded,
}
use service_extensions_sampl.Lua.State.{Coroutine, is_exited, is_wait_to_start}
use service_extensions_sampl.Lua.Coroutine.{
  World, offer, resume_script, resume_with, hand_over, hand_round, round_for, next_round,
  run_to_completion, complete, complete_if_ended, chunk_consumed, as_it_is, returning, Round, stops,
  goes_on, round_of, then_do, headers_arrive, body_arrives, trailers_arrive,
}
use service_extensions_sampl.Lua.Coroutine.Events.{
  hand_over_if, give_body, give_nil, give_trailers, give_headers, give_chunk, begin_script, start,
  handle_headers, handle_body, handle_trailers,
}

-- If there is a result, the world in it satisfies `P`.
abbrev pub Leaves : {A W : Type 0} → (W → Type 0) → Option (A × W) → Type 0
Leaves P none = Unit
Leaves P (some (a, w)) = P w

-- What a round leaves.
abbrev pub left : {W : Type 0} → Round W → W
left (stops r w) = w
left (goes_on w) = w

module _ {V S : Type 0} (lua : Lua V) (host : Host S) (P : World V S → Type 0)
    (offers : (complaint : Text) (a : Argument) (w : World V S)
      → P w
      → P (offer lua host complaint a w).1)
    (resumes : (n : ℕ) (w : World V S) → P w → P (resume_script lua host n w).1)
    (consumes : (w : World V S) → P w → P (record w { self = chunk_consumed w.self })) where
  then_do-keeps :
      (p : StatusOr Unit × World V S) (next : World V S → StatusOr Unit × World V S)
      → P p.1
      → ((w : World V S) → P w → P (next w).1)
      → P (then_do p next).1
  then_do-keeps (failed e, w) next h k = h
  then_do-keeps (fine _, w) next h k = k w h

  pub hand_over-keeps :
      (complaint : Text) (a : Argument) (change : Coroutine → Coroutine) (w : World V S)
      → ((w : World V S) → P w → P (record w { self = change w.self }))
      → P w
      → P (hand_over lua host complaint a change w).1
  unfolding hand_over resume_with
  hand_over-keeps complaint a change w changes h =
      then_do-keeps (offer lua host complaint a w) (resume_with lua host change)
        (offers complaint a w h)
        (λ w' k. resumes 1 (record w' { self = change w'.self }) (changes w' k))

  pub hand_over_if-keeps :
      (b : Bool) (complaint : Text) (a : Argument) (change : Coroutine → Coroutine) (w : World V S)
      → ((w : World V S) → P w → P (record w { self = change w.self }))
      → P w
      → P (hand_over_if lua host b complaint a change w).1
  hand_over_if-keeps true complaint a change w changes h =
      hand_over-keeps complaint a change w changes h
  hand_over_if-keeps false complaint a change w changes h = h

  round_of-keeps : (r : StatusOr Unit × World V S) → P r.1 → P (left (round_of r))
  round_of-keeps (failed e, w) h = h
  round_of-keeps (fine _, w) h = h

  hand_round-keeps :
      (complaint : Text) (a : Argument) (change : Coroutine → Coroutine) (w : World V S)
      → ((w : World V S) → P w → P (record w { self = change w.self }))
      → P w
      → P (left (hand_round lua host complaint a change w))
  unfolding hand_round
  hand_round-keeps complaint a change w changes h =
      round_of-keeps (hand_over lua host complaint a change w)
        (hand_over-keeps complaint a change w changes h)

  pub round_for-keeps : (x : YieldReason) (w : World V S) → P w → P (left (round_for lua host x w))
  unfolding round_for
  round_for-keeps wait_for_body_chunks w h =
      if-both (λ ρ. P (left ρ)) (not w.self.body_chunk_consumed && w.self.has_body_data) _ _
        (hand_round-keeps _ _ chunk_consumed w consumes h)
        (hand_round-keeps _ _ as_it_is w (λ w' h'. h') h)
  round_for-keeps wait_for_body w h = hand_round-keeps _ _ as_it_is w (λ w' h'. h') h
  round_for-keeps wait_for_trailers w h = hand_round-keeps _ _ as_it_is w (λ w' h'. h') h
  round_for-keeps no_reason w h = h
  round_for-keeps wait_for_headers w h = h
  round_for-keeps wait_for_http w h = h
  round_for-keeps wait_to_start w h = h
  round_for-keeps responded w h = h

  next_round-keeps :
      (again : World V S → Option (StatusOr Unit × World V S))
      → ((v : World V S) → P v → Leaves P (again v))
      → (b : Bool) (w : World V S) (ρ : Round (World V S)) → P w
      → P (left ρ)
      → Leaves P (if b then some (fine tt, w) else next_round again ρ)
  next_round-keeps again later true w ρ h k = h
  next_round-keeps again later false w (stops q v) h k = k
  next_round-keeps again later false w (goes_on v) h k = later v k

  pub run_to_completion-keeps :
      (fuel : ℕ) (w : World V S) → P w → Leaves P (run_to_completion lua host fuel w)
  unfolding run_to_completion
  run_to_completion-keeps zero w h = tt
  run_to_completion-keeps (suc fuel) w h =
      next_round-keeps (run_to_completion lua host fuel) (run_to_completion-keeps fuel)
        (is_exited w.self.state) w (round_for lua host w.self.yield_reason w) h
        (round_for-keeps w.self.yield_reason w h)

  returning-keeps :
      (o : Option (StatusOr Unit × World V S)) → Leaves P o → Leaves P (Option.map returning o)
  returning-keeps none h = tt
  returning-keeps (some (failed e, w)) h = h
  returning-keeps (some (fine _, w)) h = h

  pub complete-keeps :
      (fuel : ℕ) (p : StatusOr Unit × World V S) → P p.1 → Leaves P (complete lua host fuel p)
  unfolding complete
  complete-keeps fuel (failed e, w) h = h
  complete-keeps fuel (fine _, w) h =
      returning-keeps (run_to_completion lua host fuel w) (run_to_completion-keeps fuel w h)

  pub complete_if_ended-keeps :
      (fuel : ℕ) (p : StatusOr Unit × World V S)
      → P p.1
      → Leaves P (complete_if_ended lua host fuel p)
  unfolding complete_if_ended
  complete_if_ended-keeps fuel (failed e, w) h = h
  complete_if_ended-keeps fuel (fine _, w) h =
      if-both (Leaves P) w.self.stream_ended _ _ (complete-keeps fuel (fine tt, w) h) h

  give_body-keeps : (w : World V S) → P w → P (give_body lua host w).1
  unfolding give_body
  give_body-keeps w h = hand_over_if-keeps _ _ _ as_it_is w (λ w' h'. h') h

  give_nil-keeps : (w : World V S) → P w → P (give_nil lua host w).1
  unfolding give_nil
  give_nil-keeps w h = hand_over_if-keeps _ _ _ as_it_is w (λ w' h'. h') h

  give_trailers-keeps : (w : World V S) → P w → P (give_trailers lua host w).1
  unfolding give_trailers
  give_trailers-keeps w h = hand_over_if-keeps _ _ _ as_it_is w (λ w' h'. h') h

  pub give_headers-keeps : (w : World V S) → P w → P (give_headers lua host w).1
  unfolding give_headers
  give_headers-keeps w h = hand_over_if-keeps _ _ _ as_it_is w (λ w' h'. h') h

  pub give_chunk-keeps : (w : World V S) → P w → P (give_chunk lua host w).1
  unfolding give_chunk
  give_chunk-keeps w h = hand_over_if-keeps _ _ _ chunk_consumed w consumes h

  pub handle_headers-keeps :
      (fuel n : ℕ) (end_of_stream : Bool) (w : World V S)
      → P (record w { self = headers_arrive end_of_stream w.self })
      → Leaves P (handle_headers lua host fuel n end_of_stream w)
  unfolding handle_headers
  handle_headers-keeps fuel n end_of_stream w h =
      complete_if_ended-keeps fuel _ (give_headers-keeps _ h)

  pub handle_body-keeps :
      (fuel n : ℕ) (end_of_stream : Bool) (w : World V S)
      → P w
      → P (record w { self = body_arrives n end_of_stream w.self })
      → Leaves P (handle_body lua host fuel n end_of_stream w)
  unfolding handle_body
  handle_body-keeps fuel n end_of_stream w h k = if-both (Leaves P) w.self.stream_ended _ _ h (
      if-both (Leaves P) (is_exited (body_arrives n end_of_stream w.self).state) _ _ k
        (complete_if_ended-keeps fuel _ (give_chunk-keeps _ k)))

  pub handle_trailers-keeps :
      (fuel n : ℕ) (w : World V S)
      → P w
      → (w.self.received_headers ≡ true → P (record w { self = trailers_arrive w.self }))
      → Leaves P (handle_trailers lua host fuel n w)
  unfolding handle_trailers
  handle_trailers-keeps fuel n w h k = if-both (Leaves P) w.self.stream_ended _ _ h (
      if-cases (Leaves P) (not w.self.received_headers) _ _ (λ _. h)
        (λ e. if-both (Leaves P) w.self.received_trailers _ _ h (
          let arrived = k (ground (arith, e)) in
          if-both (Leaves P) (is_exited w.self.state) _ _ arrived (
            complete-keeps fuel _ (
              then_do-keeps _ (give_trailers lua host)
                (then_do-keeps _ (give_nil lua host) (give_body-keeps _ arrived) give_nil-keeps)
                give_trailers-keeps)))))

  pub start-keeps :
      (fuel : ℕ) (w : World V S)
      → P w
      → P (begin_script lua host w).1
      → Leaves P (start lua host fuel w)
  unfolding start
  start-keeps fuel w h k =
      if-both (Leaves P) (is_exited w.self.state || not (is_wait_to_start w.self.yield_reason)) _ _
        h (complete_if_ended-keeps fuel (begin_script lua host w) k)
