-- ===== src/Tests/Sort.antt =====
-- Insertion sort, as one instance of what the ad insertion plugin asks of `std::sort`.
use service_extensions_sampl.Base.{
  ℕ, ◌≤◌, ◌≡◌, refl, inl, inr, true, false, none, List, [], ◌∷◌, arith, leb, leb_iff, Bool-cases,
  codes,
}
use mathlib.Core.List.{Permᴰ}
use mathlib.Core.List.Permᴰ
use service_extensions_sampl.Samples.AdInsertion.{Insertion, Root}
use service_extensions_sampl.Samples.AdInsertion.Insert.{prepare}
use service_extensions_sampl.Samples.AdInsertion.Insert.Laws.{IsDescending, InRange}
use service_extensions_sampl.Framework.Stream.{Stream, empty_result, no_callback}
use service_extensions_sampl.Framework.Stream.Send.{send_response_body}
use service_extensions_sampl.Framework.Hosted.{hosted}
use service_extensions_sampl.Samples.AdInsertion.Response.{response_gets_ads}
use service_extensions_sampl.Samples.AdInsertion.Process.{on_response_body, ordered}
use service_extensions_sampl.Samples.AdInsertion.Insert.Laws.{spread}
use service_extensions_sampl.Tests.Order.{caseless}
use service_extensions_sampl.Samples.AdInsertion.Process.{IsSort}

abbrev place : Insertion → List Insertion → List Insertion
place e [] = e ∷ []
place e (f ∷ l) = elim (leb f.0 e.0) [ true ↦ e ∷ f ∷ l | false ↦ f ∷ place e l ]

abbrev sort : List Insertion → List Insertion
sort [] = []
sort (e ∷ l) = place e (sort l)

InRange-le : (m n : ℕ) (l : List Insertion) → m ≤ n → InRange m l → InRange n l
InRange-le m n [] h r = tt
InRange-le m n (e ∷ l) h r = (omega arith, InRange-le m n l h r.1)

place-InRange :
    (n : ℕ) (e : Insertion) (l : List Insertion) → e.0 ≤ n → InRange n l → InRange n (place e l)
place-InRange n e [] h r = (h, tt)
place-InRange n e (f ∷ l) h r = elim (Bool-cases (leb f.0 e.0)) [
  | inl b ↦ rw (b, place) (h, (r.0, r.1))
  | inr b ↦ rw (b, place) (r.0, place-InRange n e l h r.1)
]

place-IsDescending :
    (e : Insertion) (l : List Insertion) → IsDescending l → IsDescending (place e l)
place-IsDescending e [] h = (tt, tt)
place-IsDescending e (f ∷ l) h = elim (Bool-cases (leb f.0 e.0)) [
  | inl b ↦
      let le = (leb_iff f.0 e.0).0 b in
      rw (b, place, IsDescending) ((le, InRange-le f.0 e.0 l le h.0), h)
  | inr b ↦
      rw (b, place, IsDescending)
        (place-InRange f.0 e l (ground arith) h.0, place-IsDescending e l h.1)
]

place-Permᴰ : (e : Insertion) (l : List Insertion) → Permᴰ (place e l) (e ∷ l)
place-Permᴰ e [] = Permᴰ.refl (e ∷ [])
place-Permᴰ e (f ∷ l) = elim (Bool-cases (leb f.0 e.0)) [
  | inl b ↦ rw (b, place) (Permᴰ.refl (e ∷ f ∷ l))
  | inr b ↦ rw (b, place) (Permᴰ.trans (Permᴰ.cons refl (place-Permᴰ e l)) (Permᴰ.swap refl refl))
]

sort-IsDescending : (l : List Insertion) → IsDescending (sort l)
sort-IsDescending [] = tt
sort-IsDescending (e ∷ l) = place-IsDescending e (sort l) (sort-IsDescending l)

sort-Permᴰ : (l : List Insertion) → Permᴰ (sort l) l
sort-Permᴰ [] = Permᴰ.nil
sort-Permᴰ (e ∷ l) = Permᴰ.trans (place-Permᴰ e (sort l)) (Permᴰ.cons refl (sort-Permᴰ l))

sort-IsSort : IsSort sort
sort-IsSort = record { descending = sort-IsDescending; permuted = sort-Permᴰ }

-- One ad before and one after the same marker.
abbrev root : Root
root = record {
  ad_configs =
      (
        codes "a",
        record { slot = codes "s"; size = codes "1x1"; marker = codes "<p>"; insert_before = true },
      )
      ∷ (
        codes "b",
        record {
          slot = codes "t";
          size = codes "2x2";
          marker = codes "<p>";
          insert_before = false;
        },
      )
      ∷ [];
  gpt_library_url = codes "gpt";
  inject_gpt_library = true;
}

abbrev still : Stream
still = record {
  phase = none;
  result = empty_result;
  sent_local_response = false;
  body_buffer = [];
  current_callback = no_callback;
  phase_logs = [];
  logging_bytes = 0;
  logging_entries = 0;
  plugin_config = [];
  properties = [];
  torn_down = false;
}

response_gets_ads_example :
    (send_response_body
      (on_response_body sort
        (hosted caseless (λ path. []) (λ path. path))
        root
        (record { should_insert_ads = true; is_ad_request = false }))
      (codes "<p>text")
      true
      still).0.body
    ≡ spread (codes "<p>text") (ordered sort (prepare root (codes "<p>text")))
response_gets_ads_example =
    response_gets_ads caseless (λ path. []) (λ path. path) sort sort-IsSort root
      (record { should_insert_ads = true; is_ad_request = false }) (codes "<p>text") still refl
