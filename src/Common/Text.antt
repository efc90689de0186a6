-- ===== src/Common/Text.antt =====
-- `std::string` as its list of bytes, with comparison in the order of `std::less<std::string>`.
use Prim.Native.Nat.{ℕ, compare, Ordering}
use Prim.Native.Char.{code}
use Prim.Native.String.{String}
use mathlib.Core.Path.{◌≡◌, refl}
use mathlib.Core.Logic.{◌↔◌}
use mathlib.Core.Bool.{Bool, true, false}
use mathlib.Core.List.{List, [], ◌∷◌}
use native.Mathlib.Omega.{arith}

abbrev pub Text : Type 0
Text = List ℕ

-- The bytes of a literal (ASCII).
abbrev pub codes : String → Text
codes String.[] = []
codes (String.◌∷◌ c s) = code c ∷ codes s

-- Byte-wise lexicographic order.
abbrev pub compare_text : Text → Text → Ordering
compare_text [] [] = Ordering.eq
compare_text [] (y ∷ ys) = Ordering.lt
compare_text (x ∷ xs) [] = Ordering.gt
compare_text (x ∷ xs) (y ∷ ys) =
    let rest = compare_text xs ys in
    elim (compare x y) [ Ordering.lt ↦ Ordering.lt | Ordering.gt ↦ Ordering.gt | _ ↦ rest ]

pub compare_text-eq : (s t : Text) → (compare_text s t ≡ Ordering.eq) ↔ (s ≡ t)
compare_text-eq [] [] = ((λ h. refl), (λ h. refl))
compare_text-eq [] (y ∷ ys) = ((λ h. cc), (λ h. cc))
compare_text-eq (x ∷ xs) [] = ((λ h. cc), (λ h. cc))
compare_text-eq (x ∷ xs) (y ∷ ys) = (
  (λ h. ground (arith, (compare_text-eq xs ys).0)),
  (λ h. ground (arith, (compare_text-eq xs ys).1)),
)

pub compare_text_trans :
    (s t u : Text)
    → compare_text s t ≡ Ordering.lt
    → compare_text t u ≡ Ordering.lt
    → compare_text s u ≡ Ordering.lt
compare_text_trans [] [] u h k = cc
compare_text_trans [] (y ∷ ys) [] h k = cc
compare_text_trans [] (y ∷ ys) (z ∷ zs) h k = refl
compare_text_trans (x ∷ xs) [] u h k = cc
compare_text_trans (x ∷ xs) (y ∷ ys) [] h k = cc
compare_text_trans (x ∷ xs) (y ∷ ys) (z ∷ zs) h k = ground (arith, compare_text_trans xs ys zs)

pub compare_text_swap :
    (s t : Text) → compare_text s t ≡ Ordering.gt → compare_text t s ≡ Ordering.lt
compare_text_swap [] [] h = cc
compare_text_swap [] (y ∷ ys) h = cc
compare_text_swap (x ∷ xs) [] h = refl
compare_text_swap (x ∷ xs) (y ∷ ys) h = ground (arith, compare_text_swap xs ys)

-- `==` on strings.
abbrev pub text_eq : Text → Text → Bool
text_eq s t = elim (compare_text s t) [ Ordering.eq ↦ true | _ ↦ false ]

pub text_eq_iff : (s t : Text) → (text_eq s t ≡ true) ↔ (s ≡ t)
text_eq_iff s t =
    ((λ h. ground (arith, (compare_text-eq s t).0)), (λ h. ground (arith, (compare_text-eq s t).1)))
