-- ===== src/Framework/Stream/Access.antt =====
-- plugins/test/framework.cc: the header calls of `TestHttpContext`, in and out of their phase.
use service_extensions_sampl.Base.{Text, ◌≡◌, Bool, true, [], arith, if◌then◌else◌}
use service_extensions_sampl.Wasm.{HeaderMapType, Answer, value, refused, not_found}
use service_extensions_sampl.Framework.Headers.{
  same_key, IsWeakOrder, IsSorted, joined, assign, insert_or_append,
}
use service_extensions_sampl.Framework.Headers.Laws.{lookup-update, lookup-erase}
use service_extensions_sampl.Framework.Stream.{
  Stream, in_phase, get_header_map_value, add_header_map_value, replace_header_map_value,
  remove_header_map_value,
}

-- The value of an answer, or the empty text with which the map creates a key.
abbrev pub old_value : Answer Text → Text
old_value (value v) = v
old_value (refused _) = []

module _ (less : Text → Text → Bool) (o : IsWeakOrder less) where
  -- In its phase a header can be read back under every spelling of its name: replacing sets it,
  -- adding joins to it, removing drops it, and all other headers keep their values.
  pub get-change :
      (t : HeaderMapType) (j k v : Text) (s : Stream)
      → in_phase t s ≡ true
      → IsSorted less s.result.headers
      → (get_header_map_value less t j (replace_header_map_value less t k v s).1
          ≡ (if same_key less j k then value v else get_header_map_value less t j s))
        × (get_header_map_value less t j (add_header_map_value less t k v s).1 ≡ (
            if same_key less j k
            then value (joined v (old_value (get_header_map_value less t k s)))
            else get_header_map_value less t j s))
        × (get_header_map_value less t j (remove_header_map_value less t k s).1
            ≡ (if same_key less j k then refused not_found else get_header_map_value less t j s))
  unfolding get_header_map_value replace_header_map_value add_header_map_value
      remove_header_map_value assign insert_or_append
  get-change t j k v s p sorted = (
    ground (arith, lookup-update less o j k (λ _. v) s.result.headers sorted),
    ground (arith, lookup-update less o j k (joined v) s.result.headers sorted),
    ground (arith, lookup-erase less o j k s.result.headers),
  )
