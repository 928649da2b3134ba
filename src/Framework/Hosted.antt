-- ===== src/Framework/Hosted.antt =====
-- plugins/test/framework.cc as the host behind the SDK: each call of a plugin is handed to the call
-- of `TestHttpContext` of that name. How the SDK passes a call on is not in the repository; these
-- wrappers are one instance of the record `Sdk`, on which runs of plugins are evaluated.
use service_extensions_sampl.Base.{
  Text, ℕ, ◌≡◌, refl, Bool, true, Option, none, some, List, [], arith,
}
use service_extensions_sampl.Wasm.{
  HeaderMapType, BufferType, plugin_configuration, WasmResult, bad_argument, Answer, value, refused,
}
use service_extensions_sampl.Sdk.{Sdk, IsLawful}
use service_extensions_sampl.Framework.Headers.{same_key, IsWeakOrder, IsSorted, assign}
use service_extensions_sampl.Framework.Headers.Laws.{
  lookup-update, lookup-erase, update-IsSorted, erase-IsSorted,
}
use service_extensions_sampl.Framework.Buffer.{copy_to, copy_from}
use service_extensions_sampl.Framework.Stream.{
  Stream, in_phase, get_buffer, log, get_property, get_header_map_value, get_header_map_pairs,
  add_header_map_value, replace_header_map_value, remove_header_map_value, set_header_map_pairs,
  send_local_response,
}

-- A header that the host refuses has no text; the pointer is never null.
abbrev pub text_of : Answer Text → Text
text_of (value t) = t
text_of (refused _) = []

abbrev answered : {A : Type 0} → Answer A → Option A
answered (value a) = some a
answered (refused _) = none

-- `copyFrom` into the buffer of the body; the configuration is read only.
unfoldable pub write_buffer : BufferType → ℕ → ℕ → Text → Stream → WasmResult × Stream
write_buffer b start len t s = elim (get_buffer b s) [
  | none ↦ (bad_argument, s)
  | some text ↦ elim b [
    | plugin_configuration ↦ (bad_argument, s)
    | _ ↦ let (r, text') = copy_from text start len t in (r, record s { body_buffer = text' })
  ]
]

-- `separated` joins the segments of a property path as the SDK does, `translate` as the host does.
unfoldable pub hosted : (Text → Text → Bool) → (List Text → Text) → (Text → Text) → Sdk Stream
unfolding write_buffer
hosted less separated translate = record {
  missing_header = some [];
  get_header = λ t k s. some (text_of (get_header_map_value less t k s));
  header_pairs = λ t s. elim (get_header_map_pairs less t s) [ value l ↦ l | refused _ ↦ [] ];
  add_header = add_header_map_value less;
  replace_header = replace_header_map_value less;
  remove_header = remove_header_map_value less;
  set_header_pairs = set_header_map_pairs less;
  get_buffer_bytes = λ b start len s. elim (get_buffer b s) [
    | none ↦ none
    | some text ↦ answered (copy_to text start len)
  ];
  set_buffer = write_buffer;
  send_local_response =
      λ code details text headers s. (send_local_response less code text headers 0 details s).1;
  get_property = λ path s. answered (get_property translate (separated path) s);
  log = λ level message s. (log true message s).1;
}

-- Headers can be changed in their own phase, while they are in key order.
abbrev pub InPhase : (Text → Text → Bool) → HeaderMapType → Stream → Type 0
InPhase less t s = (in_phase t s ≡ true) × IsSorted less s.result.headers

-- The host keeps the laws of the record `IsLawful`, with header names that are one key as the
-- equality of names.
pub hosted-IsLawful :
    (less : Text → Text → Bool) (separated : List Text → Text) (translate : Text → Text)
    → IsWeakOrder less
    → IsLawful (hosted less separated translate) (same_key less) (InPhase less)
unfolding hosted replace_header_map_value remove_header_map_value get_header_map_value log assign
hosted-IsLawful less separated translate o = record {
  replace-Open =
      λ t k v s h. rw h.0 (refl, (h.0, update-IsSorted less o k (λ _. v) s.result.headers h.1));
  get-replace =
      λ t j k v s h. ground (arith, lookup-update less o j k (λ _. v) s.result.headers h.1);
  remove-Open = λ t k s h. rw h.0 (refl, (h.0, erase-IsSorted less o k s.result.headers h.1));
  get-remove = λ t j k s h. ground (arith, lookup-erase less o j k s.result.headers);
  log-Open = λ t l m s h. h;
  get-log = λ t j l m s. refl;
}
