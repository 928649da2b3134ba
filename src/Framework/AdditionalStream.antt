-- ===== src/Framework/AdditionalStream.antt =====
-- plugins/test/dynamic_test.cc: `AdditionalStream`, the state machine that walks one more stream
-- through its life while a benchmark runs. What the actions do to the Wasm VM is a parameter.
pub mod Cycle
use service_extensions_sampl.Base.{
  Text, ℕ, zero, suc, Bool, Option, none, some, List, [], ◌∷◌, if◌then◌else◌, is_empty,
}
use service_extensions_sampl.Framework.Headers.{Headers}

-- `NextAction`
pub data NextAction : Type 0 where
  create send_request_headers send_request_body : NextAction
  send_response_headers send_response_body destroy : NextAction

-- An action that `Advance` performs. A body chunk comes with its end-of-stream flag.
pub data Action : Type 0 where
  created destroyed : Action
  request_headers_sent response_headers_sent : Headers → Action
  request_body_sent response_body_sent : Text → Bool → Action

-- The fields of `AdditionalStream`; `none` is a null pointer.
pub record AdditionalStream : Type 0 where
  pub request_headers : Option Headers
  pub response_headers : Option Headers
  pub request_body_chunks : Option (List Text)
  pub response_body_chunks : Option (List Text)
  pub remaining_request : List Text
  pub remaining_response : List Text
  pub next_action : NextAction

-- `if (chunks != nullptr) remaining.assign(chunks->begin(), chunks->end());`
abbrev pub assigned : Option (List Text) → List Text → List Text
assigned none remaining = remaining
assigned (some chunks) remaining = chunks

-- One round of the loop in `Advance`: the action that is performed, or none on `continue`.
round_body :
    List Text
    → NextAction
    → NextAction
    → (Text → Bool → Action)
    → (List Text → NextAction → AdditionalStream)
    → Option Action × AdditionalStream
round_body [] stay next sent put = (none, put [] next)
round_body (chunk ∷ rest) stay next sent put = (some (sent chunk (is_empty rest)), put rest stay)

round_headers :
    Option Headers
    → NextAction
    → (Headers → Action)
    → AdditionalStream
    → Option Action × AdditionalStream
round_headers none next sent a = (none, record a { next_action = next })
round_headers (some h) next sent a = (some (sent h), record a { next_action = next })

round : NextAction → AdditionalStream → Option Action × AdditionalStream
unfolding round_body round_headers
round create a = (
  some created,
  record a {
    remaining_request = assigned a.request_body_chunks a.remaining_request;
    remaining_response = assigned a.response_body_chunks a.remaining_response;
    next_action = send_request_headers;
  },
)
round send_request_headers a =
    round_headers a.request_headers send_request_body request_headers_sent a
round send_request_body a =
    round_body a.remaining_request send_request_body send_response_headers request_body_sent
      (λ rest next. record a { remaining_request = rest; next_action = next })
round send_response_headers a =
    round_headers a.response_headers send_response_body response_headers_sent a
round send_response_body a =
    round_body a.remaining_response send_response_body destroy response_body_sent
      (λ rest next. record a { remaining_response = rest; next_action = next })
round destroy a = (some destroyed, record a { next_action = create })

-- The loop of `Advance`, up to the action; `none` means that the fuel ran out.
unfoldable pub pick : ℕ → AdditionalStream → Option (Action × AdditionalStream)
unfolding round
pick zero a = none
pick (suc fuel) a =
    let (performed, b) = round a.next_action a in
    elim performed [ some e ↦ some (e, b) | none ↦ pick fuel b ]

-- `absl::Status`
pub data Status : Type 0 where
  ok_status vm_failed : Status

module _ {H : Type 0} (perform : Action → H → H) (is_failed : H → Bool) where
  -- The status that `Advance` returns: creating a stream never reports a failed VM.
  abbrev pub status_after : Action → H → Status
  status_after created h = ok_status
  status_after e h = if is_failed h then vm_failed else ok_status

  -- `Advance`. At most four rounds pass without an action, so five are enough.
  unfoldable pub advance : AdditionalStream → H → Option (Status × AdditionalStream × H)
  unfolding pick
  advance a h = elim (pick 5 a) [
    | none ↦ none
    | some (e, b) ↦ some (status_after e (perform e h), b, perform e h)
  ]

  -- A number of calls of `Advance` whose statuses are dropped.
  unfoldable pub advance_times : ℕ → AdditionalStream → H → Option (AdditionalStream × H)
  advance_times zero a h = some (a, h)
  advance_times (suc n) a h = elim (advance a h) [
    | none ↦ none
    | some (_, b, h') ↦ advance_times n b h'
  ]
