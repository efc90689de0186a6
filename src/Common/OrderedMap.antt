-- ===== src/Common/OrderedMap.antt =====
-- `std::map`: entries in the order of their keys. An `std::unordered_map` that the program only looks
-- up and assigns to is this map too, since nothing there shows the order.
use Prim.Native.Nat.{ℕ, compare, Ordering}
use mathlib.Core.Path.{◌≡◌, refl}
use mathlib.Core.Logic.{◌↔◌}
use mathlib.Core.Bool.{Bool, true, false}
use mathlib.Core.Option.{Option, none, some}
use mathlib.Core.List.{List, [], ◌∷◌}
use native.Mathlib.Omega.{arith}
use caneo.Common.Tests.{if◌then◌else◌}
use caneo.Common.Text.{Text, compare_text, compare_text-eq, compare_text_trans, compare_text_swap}

-- The order that a key type comes with (`std::less`).
pub record Key {ℓ} (K : Type ℓ) : Type ℓ where
  pub cmp : K → K → Ordering
  pub cmp-eq : (a b : K) → (cmp a b ≡ Ordering.eq) ↔ (a ≡ b)
  pub cmp_trans :
      (a b c : K) → cmp a b ≡ Ordering.lt → cmp b c ≡ Ordering.lt → cmp a c ≡ Ordering.lt
  pub cmp_swap : (a b : K) → cmp a b ≡ Ordering.gt → cmp b a ≡ Ordering.lt

pub compare-eq : (a b : ℕ) → (compare a b ≡ Ordering.eq) ↔ (a ≡ b)
compare-eq a b = ground arith

pub compare_trans :
    (a b c : ℕ) → compare a b ≡ Ordering.lt → compare b c ≡ Ordering.lt → compare a c ≡ Ordering.lt
compare_trans a b c h k = ground arith

pub compare_swap : (a b : ℕ) → compare a b ≡ Ordering.gt → compare b a ≡ Ordering.lt
compare_swap a b h = ground arith

instance abbrev pub nat_key : Key ℕ
nat_key = record {
  cmp = compare;
  cmp-eq = compare-eq;
  cmp_trans = compare_trans;
  cmp_swap = compare_swap;
}

instance abbrev pub text_key : Key Text
text_key = record {
  cmp = compare_text;
  cmp-eq = compare_text-eq;
  cmp_trans = compare_text_trans;
  cmp_swap = compare_text_swap;
}

-- `std::pair<std::string, uint32_t>`: by the first component, then by the second.
abbrev pub compare_pair : Text × ℕ → Text × ℕ → Ordering
compare_pair (s, a) (t, b) = elim (compare_text s t) [
  | Ordering.lt ↦ Ordering.lt
  | Ordering.gt ↦ Ordering.gt
  | Ordering.eq ↦ compare a b
]

pub compare_pair-eq : (p q : Text × ℕ) → (compare_pair p q ≡ Ordering.eq) ↔ (p ≡ q)
compare_pair-eq (s, a) (t, b) =
    ((λ h. ground (arith, (compare_text-eq s t).0)), (λ h. ground (arith, (compare_text-eq s t).1)))

pub compare_pair_trans :
    (p q r : Text × ℕ)
    → compare_pair p q ≡ Ordering.lt
    → compare_pair q r ≡ Ordering.lt
    → compare_pair p r ≡ Ordering.lt
compare_pair_trans (s, a) (t, b) (u, c) h k =
    ground (
      arith,
      compare_text_trans s t u,
      compare_text-eq s t,
      compare_text-eq t u,
      compare_text-eq s u,
    )

pub compare_pair_swap :
    (p q : Text × ℕ) → compare_pair p q ≡ Ordering.gt → compare_pair q p ≡ Ordering.lt
compare_pair_swap (s, a) (t, b) h =
    ground (arith, compare_text_swap s t, compare_text-eq s t, compare_text-eq t s)

instance abbrev pub pair_key : Key (Text × ℕ)
pair_key = record {
  cmp = compare_pair;
  cmp-eq = compare_pair-eq;
  cmp_trans = compare_pair_trans;
  cmp_swap = compare_pair_swap;
}

module _ {ℓ} {K : Type ℓ} ⦃k : Key K⦄ where
  abbrev pub key_eq : K → K → Bool
  key_eq a b = elim (k.cmp a b) [ Ordering.eq ↦ true | _ ↦ false ]

  pub key_eq_iff : (a b : K) → (key_eq a b ≡ true) ↔ (a ≡ b)
  key_eq_iff a b =
      ((λ h. ground (arith, (k.cmp-eq a b).0)), (λ h. ground (arith, (k.cmp-eq a b).1)))

module _ {ℓ κ} {K : Type ℓ} {V : Type κ} ⦃k : Key K⦄ where
  -- `find`, with the value of the entry or nothing.
  unfoldable pub lookup : K → List (K × V) → Option V
  lookup i [] = none
  lookup i ((j, v) ∷ m) = if key_eq i j then some v else lookup i m

  -- `m[i] = v`, `insert_or_assign`.
  unfoldable pub insert : K → V → List (K × V) → List (K × V)
  insert i v [] = (i, v) ∷ []
  insert i v ((j, w) ∷ m) = elim (k.cmp i j) [
    | Ordering.lt ↦ (i, v) ∷ (j, w) ∷ m
    | Ordering.eq ↦ (i, v) ∷ m
    | Ordering.gt ↦ (j, w) ∷ insert i v m
  ]

  pub lookup-insert :
      (i j : K) (v : V) (m : List (K × V))
      → lookup j (insert i v m) ≡ (if key_eq j i then some v else lookup j m)
  unfolding lookup insert
  lookup-insert i j v [] = refl
  lookup-insert i j v ((a, w) ∷ m) =
      ground (arith, lookup-insert i j v m, k.cmp-eq i a, k.cmp-eq j a, k.cmp-eq j i)

  pub lookup-insert_self : (i : K) (v : V) (m : List (K × V)) → lookup i (insert i v m) ≡ some v
  lookup-insert_self i v m = ground (arith, lookup-insert i i v m, k.cmp-eq i i)

  pub lookup-insert_ne :
      (i j : K) (v : V) (m : List (K × V)) → ¬ (j ≡ i) → lookup j (insert i v m) ≡ lookup j m
  lookup-insert_ne i j v m h = ground (arith, lookup-insert i j v m, k.cmp-eq j i)

  -- Every key of the map is above `a`.
  abbrev pub Above : K → List (K × V) → Type 0
  Above a [] = Unit
  Above a ((j, v) ∷ m) = (k.cmp a j ≡ Ordering.lt) × Above a m

  -- The keys rise strictly along the map.
  abbrev pub IsOrdered : List (K × V) → Type 0
  IsOrdered [] = Unit
  IsOrdered ((j, v) ∷ m) = Above j m × IsOrdered m

  Above-trans : (a b : K) (m : List (K × V)) → k.cmp a b ≡ Ordering.lt → Above b m → Above a m
  Above-trans a b [] h u = tt
  Above-trans a b ((j, v) ∷ m) h u = (k.cmp_trans a b j h u.0, Above-trans a b m h u.1)

  Above-insert :
      (a i : K) (v : V) (m : List (K × V))
      → k.cmp a i ≡ Ordering.lt
      → Above a m
      → Above a (insert i v m)
  unfolding insert
  Above-insert a i v [] h u = (h, tt)
  Above-insert a i v ((j, w) ∷ m) h u = ground (arith, Above-insert a i v m h u.1)

  pub insert-IsOrdered : (i : K) (v : V) (m : List (K × V)) → IsOrdered m → IsOrdered (insert i v m)
  unfolding insert
  insert-IsOrdered i v [] o = (tt, tt)
  insert-IsOrdered i v ((j, w) ∷ m) o = ground (
    arith,
    k.cmp-eq i j,
    k.cmp_swap i j,
    Above-trans i j m,
    Above-insert j i v m,
    insert-IsOrdered i v m o.1,
  )
