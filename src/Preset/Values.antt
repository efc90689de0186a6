-- ===== src/Preset/Values.antt =====
-- What the values of an entry change in the SendModel: src/action/ActionPreset.cpp, lines 29-45.
use caneo.Common.{
  not, all, ◌==◌, ◌&&◌, ==_iff, ℕ, zero, suc, ◌+◌, ◌≡◌, refl, sym, ap, ◌∙◌, inl, inr, Bool, true,
  false, Option, none, some, List, [], ◌∷◌, map, arith, Bool-cases, Option-cases, get_elem?,
}
use caneo.Common.Text.{Text, text_eq}
use caneo.Common.OrderedMap.{nat_key, text_key, pair_key}
use caneo.Common.Ieee.{Double}
use caneo.Send.Encoding.{value_at, overwrite, value_at-set_value}
use caneo.Send.{SendSignal, SendMessage, SendModel, set_value}
use caneo.Preset.{find_index, find_sig_idx, apply_signals}

-- The names of the messages, which the values do not touch.
abbrev pub msg_names : SendModel → List Text
msg_names model = map (λ (m : SendMessage). m.name) model

msg_names-set_value :
    (model : SendModel) (mi si : ℕ) (x : Double)
    → msg_names (set_value model mi si x) ≡ msg_names model
unfolding set_value
msg_names-set_value [] mi si x = refl
msg_names-set_value (m ∷ ms) zero si x = refl
msg_names-set_value (m ∷ ms) (suc mi) si x = ap (λ l. m.name ∷ l) (msg_names-set_value ms mi si x)

none-some : {A : Type 0} (a : A) → ◌≡◌ {A = Option A} none (some a) → ⊥
none-some a h = cc

some_inj : {A : Type 0} {a b : A} → ◌≡◌ {A = Option A} (some a) (some b) → a ≡ b
some_inj h = cc

pub msg_names-apply_signals :
    (mi : ℕ) (msg : SendMessage) (signals : List (Text × Option Double)) (model model' : SendModel)
    → apply_signals model mi msg signals ≡ some model'
    → msg_names model' ≡ msg_names model
unfolding apply_signals
msg_names-apply_signals mi msg [] model model' h =
    let e : model ≡ model' = cc in sym (ap msg_names e)
msg_names-apply_signals mi msg ((name, none) ∷ rest) model model' h =
    elim (Option-cases (find_sig_idx msg name)) [
      | inl e ↦ msg_names-apply_signals mi msg rest model model' (rw (e, apply_signals) at h)
      | inr (k, e) ↦ absurd (none-some model' (rw (e, apply_signals) at h))
    ]
msg_names-apply_signals mi msg ((name, some x) ∷ rest) model model' h =
    elim (Option-cases (find_sig_idx msg name)) [
      | inl e ↦ msg_names-apply_signals mi msg rest model model' (rw (e, apply_signals) at h)
      | inr (k, e) ↦
          msg_names-apply_signals mi msg rest (set_value model mi k x) model'
            (rw (e, apply_signals) at h)
          ∙ msg_names-set_value model mi k x
    ]

pub find_index-map :
    {A : Type 0} (f : A → Text) (name : Text) (xs : List A)
    → find_index (λ x. text_eq (f x) name) xs ≡ find_index (λ n. text_eq n name) (map f xs)
unfolding find_index
find_index-map f name [] = refl
find_index-map f name (x ∷ xs) = rw (find_index-map f name xs) refl

-- The index that a search finds is that of an element with the property.
find_index-true :
    {A : Type 0} (p : A → Bool) (xs : List A) (i : ℕ) (x : A)
    → find_index p xs ≡ some i
    → get_elem? xs i ≡ some x
    → p x ≡ true
unfolding find_index
find_index-true p [] i x h g = absurd (none-some i h)
find_index-true p (y ∷ xs) i x h g = elim (Bool-cases (p y)) [
  | inl e ↦
      let q : 0 ≡ i = some_inj (rw (e, find_index) at h) in
      let same : y ≡ x = some_inj (ap (get_elem? (y ∷ xs)) q ∙ g) in ap p (sym same) ∙ e
  | inr e ↦ elim (Option-cases (find_index p xs)) [
    | inl f ↦ absurd (none-some i (rw (e, find_index, f) at h))
    | inr (j, f) ↦
        let q : j + 1 ≡ i = some_inj (rw (e, find_index, f) at h) in
        let k : suc j ≡ i = omega (arith, q) in
        find_index-true p xs j x f (ap (get_elem? (y ∷ xs)) k ∙ g)
  ]
]

-- Whether none of the values of an entry is for a name.
abbrev pub is_unnamed : Text → List (Text × Option Double) → Bool
is_unnamed name signals = all (λ (x : Text × Option Double). not (text_eq name x.0)) signals

overwrite_not : (x : Double) (o : Option Double) → overwrite false x o ≡ o
overwrite_not x none = refl
overwrite_not x (some y) = refl

pub value_at-apply_signals :
    (mi si : ℕ) (m : SendMessage) (s : SendSignal) (signals : List (Text × Option Double))
    (model model' : SendModel)
    → get_elem? m.signals si ≡ some s
    → is_unnamed s.name signals ≡ true
    → apply_signals model mi m signals ≡ some model'
    → value_at model' mi si ≡ value_at model mi si
unfolding apply_signals
value_at-apply_signals mi si m s [] model model' g u h =
    let e : model ≡ model' = cc in ap (λ l. value_at l mi si) (sym e)
value_at-apply_signals mi si m s ((name, none) ∷ rest) model model' g u h =
    elim (Option-cases (find_sig_idx m name)) [
      | inl e ↦
          value_at-apply_signals mi si m s rest model model' g (ground (arith, u))
            (rw (e, apply_signals) at h)
      | inr (k, e) ↦ absurd (none-some model' (rw (e, apply_signals) at h))
    ]
value_at-apply_signals mi si m s ((name, some x) ∷ rest) model model' g u h =
    elim (Option-cases (find_sig_idx m name)) [
      | inl e ↦
          value_at-apply_signals mi si m s rest model model' g (ground (arith, u))
            (rw (e, apply_signals) at h)
      | inr (k, e) ↦
          value_at-apply_signals mi si m s rest (set_value model mi k x) model' g
            (ground (arith, u)) (rw (e, apply_signals) at h)
          ∙ value_at-set_value model mi k mi si x
          ∙ ap (λ b. overwrite b x (value_at model mi si)) (other k e)
          ∙ overwrite_not x (value_at model mi si)
    ]
  where
    other : (k : ℕ) → find_sig_idx m name ≡ some k → (mi == mi && k == si) ≡ false
    other k e = elim (Bool-cases (k == si)) [
      | inr f ↦ ground (arith, f)
      | inl f ↦
          let q : k ≡ si = (==_iff k si).0 f in
          let t =
            find_index-true (λ (z : SendSignal). text_eq z.name name) m.signals k s e
              (ap (get_elem? m.signals) q ∙ g) in
          absurd (ground (arith, t, u))
    ]
