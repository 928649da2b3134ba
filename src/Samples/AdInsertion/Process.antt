-- ===== src/Samples/AdInsertion/Process.antt =====
-- plugins/samples/ad_insertion/plugin.cc: the response body callback, and what it writes.
use service_extensions_sampl.Base.{
  Text, ℕ, ◌+◌, ◌≡◌, refl, Bool, not, ◌||◌, none, some, List, [], ◌∷◌, arith, if◌then◌else◌, length,
  is_empty,
}
use mathlib.Core.List.{Permᴰ}
use service_extensions_sampl.Wasm.{
  http_response_body, FilterDataStatus, continue_data, stop_iteration_and_buffer,
}
use service_extensions_sampl.Sdk.{Sdk, Act}
use service_extensions_sampl.Samples.AdInsertion.{Root, Http, Insertion}
use service_extensions_sampl.Samples.AdInsertion.Insert.{insert_each, prepare}
use service_extensions_sampl.Samples.AdInsertion.Insert.Laws.{
  IsDescending, InRange, spread, inserted_length, insert_each-spread, length-insert_each,
  prepare-InRange, Permᴰ-InRange, Permᴰ-inserted_length,
}

-- What the standard guarantees of `std::sort` with the comparator `a.first > b.first`.
pub record IsSort (sort : List Insertion → List Insertion) : Type 0 where
  pub descending : (l : List Insertion) → IsDescending (sort l)
  pub permuted : (l : List Insertion) → Permᴰ (sort l) l

module _ (sort : List Insertion → List Insertion) where
  -- The body that `processBodyWithGAM` writes.
  unfoldable pub processed : Root → Text → Text
  processed root body =
      let insertions = prepare root body in
      if is_empty insertions then body else insert_each body (sort insertions)

  -- `onResponseBody`
  unfoldable pub on_response_body :
      {S : Type 0} → Sdk S → Root → Http → ℕ → Bool → Act S FilterDataStatus
  unfolding processed
  on_response_body sdk root h body_size end_of_stream s =
      if not h.should_insert_ads || h.is_ad_request
      then (continue_data, s)
      else if not end_of_stream
      then (stop_iteration_and_buffer, s)
      else elim (sdk.get_buffer_bytes http_response_body 0 body_size s) [
        | none ↦ (continue_data, s)
        | some body ↦
            let out = processed root body in
            (continue_data, (sdk.set_buffer http_response_body 0 (length out) out s).1)
      ]

  -- The insertions in the order in which they are applied.
  abbrev pub ordered : List Insertion → List Insertion
  ordered [] = []
  ordered (e ∷ l) = sort (e ∷ l)

  -- The written body holds every insertion at the position of the original body where it belongs,
  -- in whatever order `std::sort` leaves equal positions, and is longer by exactly their contents.
  pub processed-spread :
      IsSort sort
      → (root : Root) (body : Text)
      → (processed root body ≡ spread body (ordered (prepare root body)))
        × (length (processed root body) ≡ length body + inserted_length (prepare root body))
  unfolding processed
  processed-spread is_sort root body = by_cases (prepare root body) (prepare-InRange root body)
    where
      by_cases :
          (l : List Insertion)
          → InRange (length body) l
          → ((if is_empty l then body else insert_each body (sort l)) ≡ spread body (ordered l))
            × (length (if is_empty l then body else insert_each body (sort l))
                ≡ length body + inserted_length l)
      by_cases [] r = (refl, omega arith)
      by_cases (e ∷ l) r = (
        insert_each-spread body (sort (e ∷ l)) (is_sort.descending (e ∷ l))
            (Permᴰ-InRange (length body) (sort (e ∷ l)) (e ∷ l) (is_sort.permuted (e ∷ l)) r),
        omega (
          arith,
          length-insert_each body (sort (e ∷ l)),
          Permᴰ-inserted_length (sort (e ∷ l)) (e ∷ l) (is_sort.permuted (e ∷ l)),
        ),
      )
