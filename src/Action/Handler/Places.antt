-- ===== src/Action/Handler/Places.antt =====
-- Predicates and pointers along the list of actions, under the list operations of ActionHandler.
use caneo.Common.{
  ℕ, zero, suc, ◌≡◌, ◌∙◌, ◌≢◌, inl, inr, List, [], ◌∷◌, ◌++◌, arith, ◌==◌, ==_iff, Bool-cases,
  erase_at, All,
}
use caneo.Common.OrderedMap.{nat_key, text_key, pair_key}
use caneo.Action.{Action}
use caneo.Action.Handler.{modify_at, modify, without}

module _ {E : Type 0} where
  -- Two places of the list hold two actions.
  abbrev pub IsDistinct : List (Action E) → Type 0
  IsDistinct [] = Unit
  IsDistinct (a ∷ rest) = All (λ (b : Action E). a.ptr ≢ b.ptr) rest × IsDistinct rest

  module _ (P : Action E → Type 0) where
    pub All-erase_at : (l : List (Action E)) (i : ℕ) → All P l → All P (erase_at l i)
    All-erase_at [] i h = tt
    All-erase_at (a ∷ rest) zero h = h.1
    All-erase_at (a ∷ rest) (suc i) h = (h.0, All-erase_at rest i h.1)

    pub All-without : (ptr : ℕ) (l : List (Action E)) → All P l → All P (without ptr l)
    unfolding without
    All-without ptr [] h = tt
    All-without ptr (a ∷ rest) h = ground (arith, All-without ptr rest h.1)

    pub All-append : (l m : List (Action E)) → All P l → All P m → All P (l ++ m)
    All-append [] m h k = k
    All-append (a ∷ rest) m h k = (h.0, All-append rest m h.1 k)

    pub All-modify_at :
        (f : Action E → Action E) (l : List (Action E)) (i : ℕ)
        → ((a : Action E) → P a → P (f a))
        → All P l
        → All P (modify_at f l i)
    unfolding modify_at
    All-modify_at f [] i keep h = tt
    All-modify_at f (a ∷ rest) zero keep h = (keep a h.0, h.1)
    All-modify_at f (a ∷ rest) (suc i) keep h = (h.0, All-modify_at f rest i keep h.1)

    pub All-modify_same :
        (f : Action E → Action E) (ptr : ℕ) (l : List (Action E))
        → ((a : Action E) → a.ptr ≡ ptr → P a → P (f a))
        → All P l
        → All P (modify f ptr l)
    unfolding modify
    All-modify_same f ptr [] keep h = tt
    All-modify_same f ptr (a ∷ rest) keep h = (
      elim (Bool-cases (a.ptr == ptr)) [
        | inl e ↦ rw e (keep a ((==_iff a.ptr ptr).0 e) h.0)
        | inr e ↦ rw e h.0
      ],
      All-modify_same f ptr rest keep h.1,
    )

  pub All-modify :
      (P Q : Action E → Type 0) (f : Action E → Action E) (ptr : ℕ) (l : List (Action E))
      → ((a : Action E) → a.ptr ≡ ptr → P a → Q (f a))
      → ((a : Action E) → P a → Q a)
      → All P l
      → All Q (modify f ptr l)
  unfolding modify
  All-modify P Q f ptr [] hit miss h = tt
  All-modify P Q f ptr (a ∷ rest) hit miss h = (
    elim (Bool-cases (a.ptr == ptr)) [
      | inl e ↦ rw e (hit a ((==_iff a.ptr ptr).0 e) h.0)
      | inr e ↦ rw e (miss a h.0)
    ],
    All-modify P Q f ptr rest hit miss h.1,
  )

  module _ (f : Action E → Action E) (same : (a : Action E) → (f a).ptr ≡ a.ptr) where
    modify_at_apart :
        (p : ℕ) (l : List (Action E)) (i : ℕ)
        → All (λ (b : Action E). p ≢ b.ptr) l
        → All (λ (b : Action E). p ≢ b.ptr) (modify_at f l i)
    modify_at_apart p l i h = All-modify_at (λ b. p ≢ b.ptr) f l i (λ b ne e. ne (e ∙ same b)) h

    modify_apart :
        (p ptr : ℕ) (l : List (Action E))
        → All (λ (b : Action E). p ≢ b.ptr) l
        → All (λ (b : Action E). p ≢ b.ptr) (modify f ptr l)
    modify_apart p ptr l h =
        All-modify_same (λ b. p ≢ b.ptr) f ptr l (λ b _ ne e. ne (e ∙ same b)) h

    pub modify_at-IsDistinct :
        (l : List (Action E)) (i : ℕ) → IsDistinct l → IsDistinct (modify_at f l i)
    unfolding modify_at
    modify_at-IsDistinct [] i d = tt
    modify_at-IsDistinct (a ∷ rest) zero d = (rw (same a) d.0, d.1)
    modify_at-IsDistinct (a ∷ rest) (suc i) d =
        (modify_at_apart a.ptr rest i d.0, modify_at-IsDistinct rest i d.1)

    pub modify-IsDistinct :
        (ptr : ℕ) (l : List (Action E)) → IsDistinct l → IsDistinct (modify f ptr l)
    unfolding modify
    modify-IsDistinct ptr [] d = tt
    modify-IsDistinct ptr (a ∷ rest) d = elim (Bool-cases (a.ptr == ptr)) [
      | inl e ↦ rw (e, same a) (modify_apart a.ptr ptr rest d.0, modify-IsDistinct ptr rest d.1)
      | inr e ↦ rw e (modify_apart a.ptr ptr rest d.0, modify-IsDistinct ptr rest d.1)
    ]

  pub erase_at-IsDistinct : (l : List (Action E)) (i : ℕ) → IsDistinct l → IsDistinct (erase_at l i)
  erase_at-IsDistinct [] i d = tt
  erase_at-IsDistinct (a ∷ rest) zero d = d.1
  erase_at-IsDistinct (a ∷ rest) (suc i) d =
      (All-erase_at (λ b. a.ptr ≢ b.ptr) rest i d.0, erase_at-IsDistinct rest i d.1)

  pub without-IsDistinct :
      (ptr : ℕ) (l : List (Action E)) → IsDistinct l → IsDistinct (without ptr l)
  unfolding without
  without-IsDistinct ptr [] d = tt
  without-IsDistinct ptr (a ∷ rest) d =
      ground (arith, All-without (λ b. a.ptr ≢ b.ptr) ptr rest d.0, without-IsDistinct ptr rest d.1)

  pub append-IsDistinct :
      (l : List (Action E)) (a : Action E)
      → All (λ (b : Action E). b.ptr ≢ a.ptr) l
      → IsDistinct l
      → IsDistinct (l ++ (a ∷ []))
  append-IsDistinct [] a h d = (tt, tt)
  append-IsDistinct (b ∷ rest) a h d = (
    All-append (λ c. b.ptr ≢ c.ptr) rest (a ∷ []) d.0 (h.0, tt),
    append-IsDistinct rest a h.1 d.1,
  )
