-- ===== src/Lua/Api/Laws.antt =====
-- plugins/samples/lua/envoy_lua_api.cc: the values of a header by their index.
use native.Mathlib.Nat.{zero-add}
use service_extensions_sampl.Base.{
  Text, ℕ, zero, suc, ◌+◌, ◌≡◌, refl, ap, inl, inr, Bool, Option, none, some, List, [], ◌∷◌, arith,
  if◌then◌else◌, Bool-cases, length,
}
use service_extensions_sampl.Base.Int.{pos}
use service_extensions_sampl.Lua.Status.{fine}
use service_extensions_sampl.Lua.Script.{Header, Host}
use service_extensions_sampl.Lua.Api.{nth_match, count_matches, get_at_index, get_num_values}

-- The values under a name, in the order of the message.
abbrev pub values : (Text → Text → Bool) → Text → List (Text × Text) → List Text
values same key [] = []
values same key ((k, v) ∷ pairs) =
    if same k key then v ∷ values same key pairs else values same key pairs

abbrev pub nth {ℓ} : {A : Type ℓ} → List A → ℕ → Option A
nth [] i = none
nth (x ∷ xs) zero = some x
nth (x ∷ xs) (suc i) = nth xs i

nth_match-values :
    (same : Text → Text → Bool) (key : Text) (i count : ℕ) (pairs : List (Text × Text))
    → nth_match same key (count + i) count pairs ≡ nth (values same key pairs) i
unfolding nth_match
nth_match-values same key i count [] = refl
nth_match-values same key zero count ((k, v) ∷ pairs) = elim (Bool-cases (same k key)) [
  | inl e ↦ ground (arith, e)
  | inr e ↦ ground (arith, e, nth_match-values same key zero count pairs)
]
nth_match-values same key (suc i) count ((k, v) ∷ pairs) = elim (Bool-cases (same k key)) [
  | inl e ↦ ground (arith, e, nth_match-values same key i (count + 1) pairs)
  | inr e ↦ ground (arith, e, nth_match-values same key (suc i) count pairs)
]

count_matches-values :
    (same : Text → Text → Bool) (key : Text) (count : ℕ) (pairs : List (Text × Text))
    → count_matches same key count pairs ≡ count + length (values same key pairs)
unfolding count_matches
count_matches-values same key count [] = omega arith
count_matches-values same key count ((k, v) ∷ pairs) = elim (Bool-cases (same k key)) [
  | inl e ↦ ground (arith, e, count_matches-values same key (count + 1) pairs)
  | inr e ↦ ground (arith, e, count_matches-values same key count pairs)
]

module _ {S : Type 0} (host : Host S) where
  -- If the host gives the pairs of a map, the values of a header are numbered from 0 in the order of
  -- the message: an index gives that value, and none from the number of values on.
  pub indexed_values :
      (h : Header) (key : Text) (i : ℕ) (s : S) {pairs : List (Text × Text)}
      → host.get_header_map_pairs h.type s ≡ some pairs
      → (get_at_index host h key (pos i) s
          ≡ fine (nth (values host.equals_ignore_case key pairs) i))
        × (get_num_values host h key s ≡ fine (length (values host.equals_ignore_case key pairs)))
  unfolding get_at_index get_num_values
  indexed_values h key i s {pairs} e =
      let at_index : nth_match host.equals_ignore_case key i 0 pairs
          ≡ nth (values host.equals_ignore_case key pairs) i =
        rw zero-add at (nth_match-values host.equals_ignore_case key i 0 pairs) in
      let counted : count_matches host.equals_ignore_case key 0 pairs
          ≡ length (values host.equals_ignore_case key pairs) =
        omega (arith, count_matches-values host.equals_ignore_case key 0 pairs) in
      (rw (get_at_index, e) (ap fine at_index), rw (get_num_values, e) (ap fine counted))
