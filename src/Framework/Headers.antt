-- ===== src/Framework/Headers.antt =====
-- plugins/test/framework.h: `TestHttpContext::Headers`, a `std::map` from header names to values
-- whose comparator ignores case. The map is the list of its entries in key order; the comparator
-- (`boost::ilexicographical_compare`) is the parameter `less`.

pub mod Laws
use service_extensions_sampl.Base.{
  Text, ◌≡◌, Bool, true, false, not, ◌&&◌, Option, none, some, List, [], ◌∷◌, ◌++◌, codes, is_empty,
  keep, All, if◌then◌else◌,
}

abbrev pub Headers : Type 0
Headers = List (Text × Text)

-- The value that `InsertOrAppend` leaves, from the value before.
abbrev pub joined : Text → Text → Text
joined v old = if is_empty old then v else old ++ codes ", " ++ v

module _ (less : Text → Text → Bool) where
  -- Two names are one key if neither comes before the other.
  abbrev pub same_key : Text → Text → Bool
  same_key a b = not (less a b) && not (less b a)

  -- What the standard asks of a comparator.
  pub record IsWeakOrder : Type 0 where
    pub irrefl : (a : Text) → less a a ≡ false
    pub trans : (a b c : Text) → less a b ≡ true → less b c ≡ true → less a c ≡ true
    pub same_trans :
        (a b c : Text) → same_key a b ≡ true → same_key b c ≡ true → same_key a c ≡ true

  -- `find`
  unfoldable pub lookup : Text → Headers → Option Text
  lookup k [] = none
  lookup k ((j, w) ∷ m) = if same_key k j then some w else lookup k m

  -- `auto& val = operator[](key); val = f(val);`. A new key starts from the empty value.
  unfoldable pub update : Text → (Text → Text) → Headers → Headers
  update k f [] = (k, f []) ∷ []
  update k f ((j, w) ∷ m) =
      if less k j
      then (k, f []) ∷ (j, w) ∷ m
      else if less j k
      then (j, w) ∷ update k f m
      else (j, f w) ∷ m

  -- `headers[key] = value`
  unfoldable pub assign : Text → Text → Headers → Headers
  unfolding update
  assign k v = update k (λ _. v)

  unfoldable pub insert_or_append : Text → Text → Headers → Headers
  unfolding update
  insert_or_append k v = update k (joined v)

  -- `erase(key)`
  unfoldable pub erase : Text → Headers → Headers
  erase k = keep (λ e. not (same_key k e.0))

  -- Keys in order, none twice.
  abbrev pub IsSorted : Headers → Type 0
  IsSorted [] = Unit
  IsSorted ((k, v) ∷ m) = All (λ e. less k e.0 ≡ true) m × IsSorted m
