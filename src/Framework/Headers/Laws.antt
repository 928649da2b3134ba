-- ===== src/Framework/Headers/Laws.antt =====
-- plugins/test/framework.h: lookups after each change of the header map, and the order of the
-- entries.
use service_extensions_sampl.Base.{
  Text, ◌≡◌, refl, Bool, true, not, Option, none, some, [], ◌∷◌, arith, All, if◌then◌else◌,
  Bool-cases, inl, inr,
}
use service_extensions_sampl.Framework.Headers.{
  Headers, same_key, IsWeakOrder, lookup, update, erase, IsSorted,
}

-- The value that a key has, or the empty text with which `operator[]` creates it.
abbrev pub value_or_empty : Option Text → Text
value_or_empty none = []
value_or_empty (some v) = v

module _ (less : Text → Text → Bool) (o : IsWeakOrder less) where
  above_trans :
      (k i : Text) (m : Headers)
      → less k i ≡ true
      → All (λ e. less i e.0 ≡ true) m
      → All (λ e. less k e.0 ≡ true) m
  above_trans k i [] h a = tt
  above_trans k i ((j, w) ∷ m) h a = (o.trans k i j h a.0, above_trans k i m h a.1)

  -- A key before all others is not in the map.
  lookup_above : (k : Text) (m : Headers) → All (λ e. less k e.0 ≡ true) m → lookup less k m ≡ none
  unfolding lookup
  lookup_above k [] a = refl
  lookup_above k ((j, w) ∷ m) a = ground (arith, lookup_above k m a.1)

  -- An update is seen under every spelling of its key, and under no other key.
  pub lookup-update :
      (j k : Text) (f : Text → Text) (m : Headers)
      → IsSorted less m
      → lookup less j (update less k f m) ≡ (
          if same_key less j k
          then some (f (value_or_empty (lookup less k m)))
          else lookup less j m)
  unfolding lookup update
  lookup-update j k f [] s = ground arith
  lookup-update j k f ((i, w) ∷ m) s = ground (
    arith,
    lookup-update j k f m s.1,
    lookup_above k m (above_trans k i m _ s.0),
    o.same_trans j k i,
    o.same_trans j i k,
    o.same_trans k j i,
    o.trans j i k,
    o.trans k i j,
  )

  update_keeps_All :
      (P : Text → Type 0) (k : Text) (f : Text → Text) (m : Headers)
      → P k
      → All (λ e. P e.0) m
      → All (λ e. P e.0) (update less k f m)
  unfolding update
  update_keeps_All P k f [] h a = (h, tt)
  update_keeps_All P k f ((i, w) ∷ m) h a = elim (Bool-cases (less k i)) [
    | inl e ↦ rw e (h, a)
    | inr e ↦ rw e elim (Bool-cases (less i k)) [
      | inl g ↦ rw g (a.0, update_keeps_All P k f m h a.1)
      | inr g ↦ rw g a
    ]
  ]

  pub update-IsSorted :
      (k : Text) (f : Text → Text) (m : Headers)
      → IsSorted less m
      → IsSorted less (update less k f m)
  unfolding update
  update-IsSorted k f [] s = (tt, tt)
  update-IsSorted k f ((i, w) ∷ m) s = elim (Bool-cases (less k i)) [
    | inl e ↦ rw e ((e, above_trans k i m e s.0), s)
    | inr e ↦ rw e elim (Bool-cases (less i k)) [
      | inl g ↦
          rw g (update_keeps_All (λ j. less i j ≡ true) k f m g s.0, update-IsSorted k f m s.1)
      | inr g ↦ rw g s
    ]
  ]

  pub lookup-erase :
      (j k : Text) (m : Headers)
      → lookup less j (erase less k m) ≡ (if same_key less j k then none else lookup less j m)
  unfolding lookup erase
  lookup-erase j k [] = ground arith
  lookup-erase j k ((i, w) ∷ m) =
      ground (arith, lookup-erase j k m, o.same_trans j k i, o.same_trans k j i, o.same_trans j i k)

  erase_keeps_All :
      (P : Text → Type 0) (k : Text) (m : Headers)
      → All (λ e. P e.0) m
      → All (λ e. P e.0) (erase less k m)
  unfolding erase
  erase_keeps_All P k [] a = tt
  erase_keeps_All P k ((i, w) ∷ m) a = elim (Bool-cases (not (same_key less k i))) [
    | inl e ↦ rw e (a.0, erase_keeps_All P k m a.1)
    | inr e ↦ rw e (erase_keeps_All P k m a.1)
  ]

  pub erase-IsSorted : (k : Text) (m : Headers) → IsSorted less m → IsSorted less (erase less k m)
  unfolding erase
  erase-IsSorted k [] s = tt
  erase-IsSorted k ((i, w) ∷ m) s = elim (Bool-cases (not (same_key less k i))) [
    | inl e ↦ rw e (erase_keeps_All (λ j. less i j ≡ true) k m s.0, erase-IsSorted k m s.1)
    | inr e ↦ rw e (erase-IsSorted k m s.1)
  ]
