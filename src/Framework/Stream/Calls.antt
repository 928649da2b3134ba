-- ===== src/Framework/Stream/Calls.antt =====
-- plugins/test/framework.cc: what any sequence of Proxy-Wasm calls can do to a stream context.
use service_extensions_sampl.Base.{
  Text, ℕ, ◌≡◌, refl, ◌∙◌, inl, inr, Bool, true, false, List, [], ◌∷◌, arith, Bool-cases,
}
use service_extensions_sampl.Wasm.{HeaderMapType}
use service_extensions_sampl.Framework.Headers.{
  Headers, IsWeakOrder, IsSorted, assign, insert_or_append, joined,
}
use service_extensions_sampl.Framework.Headers.Laws.{update-IsSorted, erase-IsSorted}
use service_extensions_sampl.Framework.Buffer.{copy_from}
use service_extensions_sampl.Framework.Stream.{
  Stream, add_header_map_value, add_pairs, assign_all, in_phase, set_headers,
  replace_header_map_value, remove_header_map_value, set_header_map_pairs, send_local_response, log,
  may_reply,
}

module _ (less : Text → Text → Bool) where
  -- One call of a plugin that changes the context.
  pub data Call (s : Stream) : Stream → Type 0 where
    add : (t : HeaderMapType) (k v : Text) → Call s (add_header_map_value less t k v s).1
    replace : (t : HeaderMapType) (k v : Text) → Call s (replace_header_map_value less t k v s).1
    remove : (t : HeaderMapType) (k : Text) → Call s (remove_header_map_value less t k s).1
    set_pairs :
        (t : HeaderMapType) (pairs : List (Text × Text))
        → Call s (set_header_map_pairs less t pairs s).1
    reply :
        (code : ℕ) (text : Text) (pairs : List (Text × Text)) (grpc : ℕ) (details : Text)
        → Call s (send_local_response less code text pairs grpc details s).1
    write_body :
        (start len : ℕ) (t : Text)
        → Call s (record s { body_buffer = (copy_from s.body_buffer start len t).1 })
    write_log : (enabled : Bool) (message : Text) → Call s (log enabled message s).1

  -- A sequence of calls, the last one outermost.
  pub data Calls (s : Stream) : Stream → Type 0 where
    done : Calls s s
    and_then : {u v : Stream} → Calls s u → Call u v → Calls s v

  -- What calls cannot undo: the phase stands, a local response stays sent, the headers stay in key
  -- order, and without a local response there is no HTTP code.
  pub record IsKept (s u : Stream) : Type 0 where
    pub phase : u.phase ≡ s.phase
    pub callback : u.current_callback ≡ s.current_callback
    pub sent : s.sent_local_response ≡ true → u.sent_local_response ≡ true
    pub sorted : IsSorted less s.result.headers → IsSorted less u.result.headers
    pub code : u.sent_local_response ≡ false → u.result.http_code ≡ s.result.http_code

module _ (less : Text → Text → Bool) (o : IsWeakOrder less) where
  assign_all-IsSorted :
      (pairs : List (Text × Text)) (m : Headers)
      → IsSorted less m
      → IsSorted less (assign_all less pairs m)
  unfolding assign_all assign
  assign_all-IsSorted [] m h = h
  assign_all-IsSorted ((k, v) ∷ pairs) m h =
      assign_all-IsSorted pairs _ (update-IsSorted less o k (λ _. v) m h)

  IsKept-refl : (s : Stream) → IsKept less s s
  IsKept-refl s = record {
    phase = refl;
    callback = refl;
    sent = λ h. h;
    sorted = λ h. h;
    code = λ _. refl;
  }

  IsKept-trans : (s u v : Stream) → IsKept less s u → IsKept less u v → IsKept less s v
  IsKept-trans s u v a b = record {
    phase = b.phase ∙ a.phase;
    callback = b.callback ∙ a.callback;
    sent = λ h. b.sent (a.sent h);
    sorted = λ h. b.sorted (a.sorted h);
    code = λ h. elim (Bool-cases u.sent_local_response) [
      | inl e ↦ absurd (ground (arith, b.sent e))
      | inr e ↦ b.code h ∙ a.code e
    ];
  }

  set_headers-IsKept :
      (s : Stream) (m : Headers)
      → (IsSorted less s.result.headers → IsSorted less m)
      → IsKept less s (set_headers m s)
  set_headers-IsKept s m h = record {
    phase = refl;
    callback = refl;
    sent = λ h. h;
    sorted = h;
    code = λ _. refl;
  }

  add-IsKept :
      (t : HeaderMapType) (k v : Text) (s : Stream)
      → IsKept less s (add_header_map_value less t k v s).1
  unfolding add_header_map_value insert_or_append
  add-IsKept t k v s = elim (Bool-cases (in_phase t s)) [
    | inl e ↦ rw e (set_headers-IsKept s _ (update-IsSorted less o k (joined v) s.result.headers))
    | inr e ↦ rw e (IsKept-refl s)
  ]

  add_pairs-IsKept :
      (t : HeaderMapType) (pairs : List (Text × Text)) (s : Stream)
      → IsKept less s (add_pairs less t pairs s)
  unfolding add_pairs
  add_pairs-IsKept t [] s = IsKept-refl s
  add_pairs-IsKept t ((k, v) ∷ pairs) s =
      let u = (add_header_map_value less t k v s).1 in
      IsKept-trans s u (add_pairs less t pairs u) (add-IsKept t k v s) (add_pairs-IsKept t pairs u)

  Call-IsKept : (s u : Stream) → Call less s u → IsKept less s u
  unfolding replace_header_map_value remove_header_map_value set_header_map_pairs
      send_local_response log assign
  Call-IsKept s u (add t k v) = add-IsKept t k v s
  Call-IsKept s u (replace t k v) = elim (Bool-cases (in_phase t s)) [
    | inl e ↦ rw e (set_headers-IsKept s _ (update-IsSorted less o k (λ _. v) s.result.headers))
    | inr e ↦ rw e (IsKept-refl s)
  ]
  Call-IsKept s u (remove t k) = elim (Bool-cases (in_phase t s)) [
    | inl e ↦ rw e (set_headers-IsKept s _ (erase-IsSorted less o k s.result.headers))
    | inr e ↦ rw e (IsKept-refl s)
  ]
  Call-IsKept s u (set_pairs t pairs) = elim (Bool-cases (in_phase t s)) [
    | inl e ↦ rw e (
        IsKept-trans s (set_headers [] s) _ (set_headers-IsKept s [] (λ _. tt))
          (add_pairs-IsKept t pairs (set_headers [] s)))
    | inr e ↦ rw e (IsKept-refl s)
  ]
  Call-IsKept s u (reply code text pairs grpc details) =
      elim (Bool-cases (may_reply s.current_callback)) [
        | inl e ↦ rw e (record {
          phase = refl;
          callback = refl;
          sent = λ _. refl;
          sorted = λ _. assign_all-IsSorted pairs [] tt;
          code = λ h. absurd (cc h);
        })
        | inr e ↦ rw e (IsKept-refl s)
      ]
  Call-IsKept s u (write_body start len t) = record {
    phase = refl;
    callback = refl;
    sent = λ h. h;
    sorted = λ h. h;
    code = λ _. refl;
  }
  Call-IsKept s u (write_log enabled message) = record {
    phase = refl;
    callback = refl;
    sent = λ h. h;
    sorted = λ h. h;
    code = λ _. refl;
  }

  -- No sequence of calls changes the phase or the callback, takes a local response back, puts the
  -- headers out of order, or sets an HTTP code without sending a local response.
  pub Calls-IsKept : (s u : Stream) → Calls less s u → IsKept less s u
  Calls-IsKept s u done = IsKept-refl s
  Calls-IsKept s u (and_then {u = v} cs c) =
      IsKept-trans s v u (Calls-IsKept s v cs) (Call-IsKept v u c)
