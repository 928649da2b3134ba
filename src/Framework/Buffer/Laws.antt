-- ===== src/Framework/Buffer/Laws.antt =====
-- plugins/test/framework.cc: how reads and writes of a body buffer fit together.
use service_extensions_sampl.Base.{
  Text, ℕ, ◌+◌, ◌%◌, ◌^◌, ◌≤◌, ◌<◌, ◌≡◌, ap, ◌++◌, append-nil, append_assoc, arith, leb,
  if◌then◌else◌, leb_iff, length, take, drop, length-append, length-take, length-drop,
  take-length_append, drop-length_append, drop-all, take-all,
}
use service_extensions_sampl.Wasm.{ok, invalid_memory_access, value, refused}
use service_extensions_sampl.Framework.Buffer.{replace, copy_to, copy_from}

replace_end : (s t : Text) (start len : ℕ) → length s ≤ start → replace s start len t ≡ s ++ t
unfolding replace
replace_end s t start len h =
    rw (take-all start s h, drop-all (start + len) s (omega arith), append-nil)

pub replace_part :
    (before part after t : Text)
    → replace (before ++ (part ++ after)) (length before) (length part) t ≡ before ++ (t ++ after)
unfolding replace
replace_part before part after t = rw (
  take-length_append before (part ++ after),
  ← length-append before part,
  ← append_assoc before part after,
  drop-length_append (before ++ part) after,
)

-- A write past the end appends, a write over the whole text replaces it, and a write into the
-- middle changes only the part that it covers.
pub copy_from_parts :
    (before part after t : Text) (start len : ℕ)
    → length part ≤ start
    → (copy_from part start len t ≡ (ok, part ++ t))
      × (copy_from part 0 (length part) t ≡ (ok, t))
      × (copy_from (before ++ (part ++ after)) (length before) (length part) t
          ≡ (ok, before ++ (t ++ after)))
unfolding copy_from replace
copy_from_parts before part after t start len h = (
  ap (λ (u : Text). (ok, u)) (replace_end part t _ len (ground arith)),
  rw ((leb_iff 0 (length part)).1 (omega arith))
      (ap (λ (u : Text). (ok, u)) (rw (drop-all (0 + length part) part (omega arith), append-nil))),
  rw
      ((leb_iff (length before) (length (before ++ (part ++ after)))).1
        (omega (arith, length-append before (part ++ after))))
      (ap (λ (u : Text). (ok, u)) (replace_part before part after t)),
)

-- With 32-bit offsets, as they come from a WebAssembly module, a read succeeds exactly if it lies
-- inside the buffer, and then gives as many bytes as were asked for.
pub copy_to_in_range :
    (buffer : Text) (start len : ℕ)
    → start < 2 ^ 32
    → len < 2 ^ 32
    → (copy_to buffer start len ≡ (
        if leb (start + len) (length buffer)
        then value (take len (drop start buffer))
        else refused invalid_memory_access))
      × (start + len ≤ length buffer → length (take len (drop start buffer)) ≡ len)
unfolding copy_to
copy_to_in_range buffer start len hs hl = (
  ap
      (λ (n : ℕ).
        if leb n (length buffer)
        then value (take len (drop start buffer))
        else refused invalid_memory_access)
      (let e : (start + len) % 2 ^ 64 ≡ start + len = omega arith in e),
  λ h. omega (arith, length-take len (drop start buffer), length-drop start buffer),
)
