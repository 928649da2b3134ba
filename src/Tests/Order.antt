-- ===== src/Tests/Order.antt =====
-- A concrete order of header names: byte by byte, after ASCII upper case is lowered.
use service_extensions_sampl.Base.{
  Text, ℕ, ◌+◌, ◌≡◌, refl, Bool, true, false, ◌&&◌, [], ◌∷◌, arith, leb, if◌then◌else◌, map,
  text_lt,
}
use service_extensions_sampl.Framework.Headers.{IsWeakOrder, same_key}

pub text_lt_irrefl : (s : Text) → text_lt s s ≡ false
unfolding text_lt
text_lt_irrefl [] = refl
text_lt_irrefl (c ∷ s) = ground (arith, text_lt_irrefl s)

text_lt_trans : (s t u : Text) → text_lt s t ≡ true → text_lt t u ≡ true → text_lt s u ≡ true
unfolding text_lt
text_lt_trans s t [] h k = absurd (cc)
text_lt_trans s [] (e ∷ u) h k = absurd (cc)
text_lt_trans [] (d ∷ t) (e ∷ u) h k = refl
text_lt_trans (c ∷ s) (d ∷ t) (e ∷ u) h k = ground (arith, text_lt_trans s t u)

text_lt_eq : (s t : Text) → text_lt s t ≡ false → text_lt t s ≡ false → s ≡ t
unfolding text_lt
text_lt_eq [] [] h k = refl
text_lt_eq [] (d ∷ t) h k = absurd (cc)
text_lt_eq (c ∷ s) [] h k = absurd (cc)
text_lt_eq (c ∷ s) (d ∷ t) h k = ground (arith, text_lt_eq s t)

unfoldable pub lower : ℕ → ℕ
lower c = if leb 65 c && leb c 90 then c + 32 else c

unfoldable pub caseless : Text → Text → Bool
unfolding lower text_lt
caseless a b = text_lt (map lower a) (map lower b)

same_lower : (a b : Text) → same_key caseless a b ≡ true → map lower a ≡ map lower b
unfolding caseless
same_lower a b h = text_lt_eq (map lower a) (map lower b) (ground arith) (ground arith)

pub caseless-IsWeakOrder : IsWeakOrder caseless
unfolding caseless
caseless-IsWeakOrder = record {
  irrefl = λ a. text_lt_irrefl (map lower a);
  trans = λ a b c. text_lt_trans (map lower a) (map lower b) (map lower c);
  same_trans = λ a b c h k. rw (same_lower a b h) k;
}
