-- ===== src/Base/Bytes.antt =====
-- Texts as lists of bytes, and the `std::string` operations that the sources use.
use Prim.Native.Char.{code}
use Prim.Native.Nat.{ℕ, suc, ◌+◌, ◌≤◌}
use Prim.Native.String.{String}
use mathlib.Core.Path.{◌≡◌, refl}
use mathlib.Core.Logic.{◌↔◌, inl, inr}
use mathlib.Core.Bool.{Bool, true, false, ◌&&◌}
use mathlib.Core.Option
use mathlib.Core.Option.{Option, none, some}
use mathlib.Core.List.{List, [], ◌∷◌}
use native.Mathlib.Omega.{arith}
use service_extensions_sampl.Base.Test.{◌==◌, ltb, if◌then◌else◌, Option-cases}
use service_extensions_sampl.Base.Lists.{length, any}

abbrev pub Text : Type 0
Text = List ℕ

-- The bytes of a literal. It is shut, so that proofs see a literal as one unknown text.
unfoldable pub codes : String → Text
codes String.[] = []
codes (String.◌∷◌ c s) = code c ∷ codes s

-- `==` of two texts.
unfoldable pub text_eq : Text → Text → Bool
text_eq [] [] = true
text_eq [] (d ∷ t) = false
text_eq (c ∷ s) [] = false
text_eq (c ∷ s) (d ∷ t) = c == d && text_eq s t

pub text_eq_iff : (s t : Text) → (text_eq s t ≡ true) ↔ (s ≡ t)
unfolding text_eq
text_eq_iff [] [] = (λ _. refl, λ _. refl)
text_eq_iff [] (d ∷ t) = (λ h. cc, λ h. cc)
text_eq_iff (c ∷ s) [] = (λ h. cc, λ h. cc)
text_eq_iff (c ∷ s) (d ∷ t) = ground (arith, text_eq_iff s t)

-- `std::unordered_set::count` and the like: whether a list of texts has the text.
abbrev pub has_text : Text → List Text → Bool
has_text t ts = any (text_eq t) ts

-- Whether the second text begins with the first.
unfoldable pub is_prefix : Text → Text → Bool
is_prefix [] t = true
is_prefix (c ∷ s) [] = false
is_prefix (c ∷ s) (d ∷ t) = c == d && is_prefix s t

-- `std::string::find(needle)`: the first position, `none` for `npos`.
unfoldable pub find : Text → Text → Option ℕ
unfolding is_prefix
find [] needle = if is_prefix needle [] then some 0 else none
find (c ∷ s) needle = if is_prefix needle (c ∷ s) then some 0 else Option.map suc (find s needle)

pub is_prefix_bounds : (s t : Text) → is_prefix s t ≡ true → length s ≤ length t
unfolding is_prefix
is_prefix_bounds [] t h = omega arith
is_prefix_bounds (c ∷ s) [] h = cc
is_prefix_bounds (c ∷ s) (d ∷ t) h = ground (arith, is_prefix_bounds s t)

-- A text that is found ends inside the text in which it was looked for.
pub find_bounds : (s needle : Text) (n : ℕ) → find s needle ≡ some n → n + length needle ≤ length s
unfolding find
find_bounds [] needle n h = ground (arith, is_prefix_bounds needle [])
find_bounds (c ∷ s) needle n h = elim (Option-cases (find s needle)) [
  | inl e ↦ ground (arith, is_prefix_bounds needle (c ∷ s))
  | inr (m, e) ↦ ground (arith, is_prefix_bounds needle (c ∷ s), find_bounds s needle m e)
]

-- `<` of two texts: the order of `std::string`, byte by byte.
unfoldable pub text_lt : Text → Text → Bool
text_lt s [] = false
text_lt [] (d ∷ t) = true
text_lt (c ∷ s) (d ∷ t) = if c == d then text_lt s t else ltb c d
