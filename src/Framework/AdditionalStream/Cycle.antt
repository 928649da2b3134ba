-- ===== src/Framework/AdditionalStream/Cycle.antt =====
-- plugins/test/dynamic_test.cc: the actions that calls of `Advance` perform, and the life of a
-- stream.
use service_extensions_sampl.Base.{
  Text, ◌≡◌, refl, sym, ◌∙◌, Bool, true, false, Option, none, some, List, [], ◌∷◌, ◌++◌, length,
}
use mathlib.Core.Path.{subst}
use service_extensions_sampl.Framework.Headers.{Headers}
use service_extensions_sampl.Framework.AdditionalStream.{
  NextAction, create, send_request_headers, send_request_body, send_response_headers,
  send_response_body, destroy, Action, created, destroyed, request_headers_sent,
  response_headers_sent, request_body_sent, response_body_sent, AdditionalStream, pick, Status,
  status_after, advance, advance_times, assigned, Status, status_after,
}

-- The chunks of a body in order; only the last one ends the stream.
abbrev pub chunk_actions : (Text → Bool → Action) → List Text → List Action
chunk_actions sent [] = []
chunk_actions sent (c ∷ []) = sent c true ∷ []
chunk_actions sent (c ∷ d ∷ rest) = sent c false ∷ chunk_actions sent (d ∷ rest)

abbrev pub header_action : (Headers → Action) → Option Headers → List Action
header_action sent none = []
header_action sent (some h) = sent h ∷ []

-- The life of one stream, in the order in which HTTP delivers it.
abbrev pub life : AdditionalStream → List Action
life a =
    created ∷ header_action request_headers_sent a.request_headers
    ++ (chunk_actions request_body_sent (assigned a.request_body_chunks [])
        ++ (header_action response_headers_sent a.response_headers
            ++ (chunk_actions response_body_sent (assigned a.response_body_chunks [])
                ++ destroyed ∷ [])))

-- Consecutive calls of `Advance` that perform the actions of the list, one at least.
data Runs : AdditionalStream → List Action → AdditionalStream → Type 0 where
  last : {a b : AdditionalStream} {e : Action} → pick 5 a ≡ some (e, b) → Runs a (e ∷ []) b
  next :
      {a b c : AdditionalStream} {e : Action} {es : List Action}
      → pick 5 a ≡ some (e, b)
      → Runs b es c
      → Runs a (e ∷ es) c

-- A state whose next call performs the same action, by `continue`, runs the same.
skip :
    {a b c : AdditionalStream} {es : List Action} → pick 5 a ≡ pick 5 b → Runs b es c → Runs a es c
skip p (last h) = last (p ∙ h)
skip p (next h r) = next (p ∙ h) r

module _ (qb rb : Option (List Text)) where
  abbrev at :
      Option Headers → Option Headers → List Text → List Text → NextAction → AdditionalStream
  at q r rq rr n = record {
    request_headers = q;
    response_headers = r;
    request_body_chunks = qb;
    response_body_chunks = rb;
    remaining_request = rq;
    remaining_response = rr;
    next_action = n;
  }

  skip_response_headers :
      (q : Option Headers) (rr : List Text)
      → pick 5 (at q none [] rr send_response_headers) ≡ pick 5 (at q none [] rr send_response_body)
  unfolding pick
  skip_response_headers q [] = refl
  skip_response_headers q (c ∷ rr) = refl

  skip_request_body :
      (q r : Option Headers) (rr : List Text)
      → pick 5 (at q r [] rr send_request_body) ≡ pick 5 (at q r [] rr send_response_headers)
  unfolding pick
  skip_request_body q none [] = refl
  skip_request_body q none (c ∷ rr) = refl
  skip_request_body q (some h) rr = refl

  skip_request_headers :
      (r : Option Headers) (rq rr : List Text)
      → pick 5 (at none r rq rr send_request_headers) ≡ pick 5 (at none r rq rr send_request_body)
  unfolding pick
  skip_request_headers none [] [] = refl
  skip_request_headers none [] (c ∷ rr) = refl
  skip_request_headers (some h) [] rr = refl
  skip_request_headers r (c ∷ rq) rr = refl

  run_response_body :
      (q r : Option Headers) (rr : List Text)
      → Runs
          (at q r [] rr send_response_body)
          (chunk_actions response_body_sent rr ++ destroyed ∷ [])
          (at q r [] [] create)
  unfolding pick
  run_response_body q r [] = last refl
  run_response_body q r (c ∷ []) = next refl (run_response_body q r [])
  run_response_body q r (c ∷ d ∷ rest) = next refl (run_response_body q r (d ∷ rest))

  run_response_headers :
      (q r : Option Headers) (rr : List Text)
      → Runs
          (at q r [] rr send_response_headers)
          (header_action response_headers_sent r
            ++ (chunk_actions response_body_sent rr ++ destroyed ∷ []))
          (at q r [] [] create)
  unfolding pick
  run_response_headers q none rr = skip (skip_response_headers q rr) (run_response_body q none rr)
  run_response_headers q (some h) rr = next refl (run_response_body q (some h) rr)

  run_request_body :
      (q r : Option Headers) (rq rr : List Text)
      → Runs
          (at q r rq rr send_request_body)
          (chunk_actions request_body_sent rq
            ++ (header_action response_headers_sent r
                ++ (chunk_actions response_body_sent rr ++ destroyed ∷ [])))
          (at q r [] [] create)
  unfolding pick
  run_request_body q r [] rr = skip (skip_request_body q r rr) (run_response_headers q r rr)
  run_request_body q r (c ∷ []) rr = next refl (run_request_body q r [] rr)
  run_request_body q r (c ∷ d ∷ rq) rr = next refl (run_request_body q r (d ∷ rq) rr)

  run_request_headers :
      (q r : Option Headers) (rq rr : List Text)
      → Runs
          (at q r rq rr send_request_headers)
          (header_action request_headers_sent q
            ++ (chunk_actions request_body_sent rq
                ++ (header_action response_headers_sent r
                    ++ (chunk_actions response_body_sent rr ++ destroyed ∷ []))))
          (at q r [] [] create)
  unfolding pick
  run_request_headers none r rq rr =
      skip (skip_request_headers r rq rr) (run_request_body none r rq rr)
  run_request_headers (some h) r rq rr = next refl (run_request_body (some h) r rq rr)

-- A stream that has been built or destroyed: nothing of a body remains.
abbrev pub IsFresh : AdditionalStream → Type 0
IsFresh a = (a.next_action ≡ create) × (a.remaining_request ≡ []) × (a.remaining_response ≡ [])

fresh-Runs :
    (qb rb : Option (List Text)) (q r : Option Headers)
    → Runs
        (at qb rb q r [] [] create)
        (life (at qb rb q r [] [] create))
        (at qb rb q r [] [] create)
unfolding pick
fresh-Runs qb rb q r = next refl (run_request_headers qb rb q r (assigned qb []) (assigned rb []))

fresh-eq :
    (a : AdditionalStream)
    → a.next_action ≡ create
    → a.remaining_request ≡ []
    → a.remaining_response ≡ []
    → a
      ≡ at a.request_body_chunks a.response_body_chunks a.request_headers a.response_headers [] []
          create
fresh-eq a n q r = λ i. record {
  request_headers = a.request_headers;
  response_headers = a.response_headers;
  request_body_chunks = a.request_body_chunks;
  response_body_chunks = a.response_body_chunks;
  remaining_request = q i;
  remaining_response = r i;
  next_action = n i;
}

module _ (qb rb : Option (List Text)) where
  abbrev Picks : AdditionalStream → Type 0
  Picks a = (e : Action) × (b : AdditionalStream) × (pick 5 a ≡ some (e, b))

  pick_total :
      (q r : Option Headers) (rq rr : List Text) (n : NextAction) → Picks (at qb rb q r rq rr n)
  unfolding pick
  pick_total q r rq rr create = (_, _, refl)
  pick_total q r rq rr destroy = (_, _, refl)
  pick_total q r rq [] send_response_body = (_, _, refl)
  pick_total q r rq (c ∷ rr) send_response_body = (_, _, refl)
  pick_total q none rq [] send_response_headers = (_, _, refl)
  pick_total q none rq (c ∷ rr) send_response_headers = (_, _, refl)
  pick_total q (some h) rq rr send_response_headers = (_, _, refl)
  pick_total q none [] [] send_request_body = (_, _, refl)
  pick_total q none [] (c ∷ rr) send_request_body = (_, _, refl)
  pick_total q (some h) [] rr send_request_body = (_, _, refl)
  pick_total q r (c ∷ rq) rr send_request_body = (_, _, refl)
  pick_total none none [] [] send_request_headers = (_, _, refl)
  pick_total none none [] (c ∷ rr) send_request_headers = (_, _, refl)
  pick_total none (some h) [] rr send_request_headers = (_, _, refl)
  pick_total none r (c ∷ rq) rr send_request_headers = (_, _, refl)
  pick_total (some h) r rq rr send_request_headers = (_, _, refl)

module _ {H : Type 0} (perform : Action → H → H) (is_failed : H → Bool) where
  abbrev pub perform_all : List Action → H → H
  perform_all [] h = h
  perform_all (e ∷ es) h = perform_all es (perform e h)

  advance_times-Runs :
      (es : List Action) (a b : AdditionalStream) (h : H)
      → Runs a es b
      → advance_times perform is_failed (length es) a h ≡ some (b, perform_all es h)
  unfolding advance_times advance
  advance_times-Runs es a b h (last p) = rw (p, advance_times)
  advance_times-Runs es a b h (next {b = m} {e = e} {es = rest} p r) =
      rw (p, advance_times) (advance_times-Runs rest m b (perform e h) r)

  -- From a fresh stream, as many calls of `Advance` as its life has actions perform exactly these,
  -- in order, with only the last chunk of a body ending the stream, and leave the stream as it was.
  pub advance_times-life :
      (a : AdditionalStream) (h : H)
      → IsFresh a
      → advance_times perform is_failed (length (life a)) a h ≡ some (a, perform_all (life a) h)
  advance_times-life a h (n, q, r) =
      subst
        (λ b.
          advance_times perform is_failed (length (life b)) b h ≡ some (b, perform_all (life b) h))
        (sym (fresh-eq a n q r))
        (advance_times-Runs _ _ _ h (
          fresh-Runs a.request_body_chunks a.response_body_chunks a.request_headers
            a.response_headers))

  -- Five rounds are always enough: `Advance` returns in every state.
  pub advance_total :
      (a : AdditionalStream) (h : H)
      → (out : Status × AdditionalStream × H) × (advance perform is_failed a h ≡ some out)
  unfolding advance
  advance_total a h =
      let picked =
        pick_total a.request_body_chunks a.response_body_chunks a.request_headers a.response_headers
          a.remaining_request a.remaining_response a.next_action in
      (
        (
          status_after perform is_failed picked.0 (perform picked.0 h),
          picked.1,
          perform picked.0 h,
        ),
        rw (picked.2, advance),
      )
