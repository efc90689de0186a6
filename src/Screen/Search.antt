-- ===== src/Screen/Search.antt =====
-- What the search of the trace tab finds: src/gui/TuiDataFrameSet.cpp, lines 15-33 and 883-890.
use caneo.Numerals.{format_id}
use caneo.Frame.{CanFrame, DecodedSignal}
use caneo.Screen.Trace.{to_lower, is_prefix, contains, ci_contains, trace_matches, split_entries}
use mathlib.Core.Path.{ap₂}
use mathlib.Core.Bool.{false≢true}
use caneo.Common.{
  if_all, ℕ, ◌≡◌, refl, sym, ap, ◌∙◌, ◌↔◌, ◌⊎◌, inl, inr, Bool, true, false, ◌&&◌, ◌||◌, List, [],
  ◌∷◌, ◌++◌, arith, ◌==◌, ==_iff, any, All,
}
use mathlib.Core.List.{Perm, perm_middle}
use mathlib.Core.List.Perm
use caneo.Common.Text.{Text}
use caneo.Common.OrderedMap.{nat_key, text_key, pair_key}

-- A text occurs in another one.
abbrev pub Occurs : Text → Text → Type 0
Occurs q hay = (pre : Text) × ((post : Text) × (hay ≡ pre ++ (q ++ post)))

abbrev pub Any {ℓ} : {A : Type ℓ} → (A → Type 0) → List A → Type 0
Any P [] = ⊥
Any P (x ∷ xs) = P x ⊎ Any P xs

-- The texts in which a frame is searched: its identifier, its name, and the names and units of its
-- signals.
abbrev pub signal_texts : List DecodedSignal → List Text
signal_texts [] = []
signal_texts (s ∷ ss) = s.name ∷ s.unit ∷ signal_texts ss

abbrev pub searched_texts : ℕ → CanFrame → List Text
searched_texts id f = format_id id ∷ f.msg_name ∷ signal_texts f.decoded

and-true : (a b : Bool) → a && b ≡ true → (a ≡ true) × (b ≡ true)
and-true a b h = ground arith

or-true : (a b : Bool) → a || b ≡ true → (a ≡ true) ⊎ (b ≡ true)
or-true true b h = inl refl
or-true false b h = inr h

or-true_right : (a b : Bool) → b ≡ true → a || b ≡ true
or-true_right a b h = ground arith

is_prefix_sound : (q s : Text) → is_prefix q s ≡ true → (post : Text) × (s ≡ q ++ post)
unfolding is_prefix
is_prefix_sound [] s h = (s, refl)
is_prefix_sound (c ∷ cs) [] h = cc
is_prefix_sound (c ∷ cs) (d ∷ ds) h =
    let (e, k) = and-true (c == d) (is_prefix cs ds) h in
    let (post, r) = is_prefix_sound cs ds k in (post, ap₂ ◌∷◌ (sym ((==_iff c d).0 e)) r)

is_prefix-append : (q post : Text) → is_prefix q (q ++ post) ≡ true
unfolding is_prefix
is_prefix-append [] post = refl
is_prefix-append (c ∷ cs) post = ground (arith, is_prefix-append cs post)

contains_sound : (q s : Text) → contains q s ≡ true → Occurs q s
unfolding contains
contains_sound q [] h = let (post, r) = is_prefix_sound q [] h in ([], (post, r))
contains_sound q (c ∷ cs) h = elim (or-true (is_prefix q (c ∷ cs)) (contains q cs) h) [
  | inl k ↦ let (post, r) = is_prefix_sound q (c ∷ cs) k in ([], (post, r))
  | inr k ↦ let (pre, (post, r)) = contains_sound q cs k in (c ∷ pre, (post, ap (◌∷◌ c) r))
]

contains_prefix : (q s : Text) → is_prefix q s ≡ true → contains q s ≡ true
unfolding contains
contains_prefix q [] h = h
contains_prefix q (c ∷ cs) h = ground (arith, h)

contains-append : (q pre post : Text) → contains q (pre ++ (q ++ post)) ≡ true
unfolding contains
contains-append q [] post = contains_prefix q (q ++ post) (is_prefix-append q post)
contains-append q (c ∷ pre) post =
    or-true_right (is_prefix q (c ∷ (pre ++ (q ++ post)))) (contains q (pre ++ (q ++ post)))
      (contains-append q pre post)

contains_iff : (q s : Text) → (contains q s ≡ true) ↔ Occurs q s
contains_iff q s =
    (contains_sound q s, (λ (pre, (post, h)). ap (contains q) h ∙ contains-append q pre post))

or_assoc : (a b c : Bool) → (a || b) || c ≡ a || (b || c)
or_assoc true b c = refl
or_assoc false b c = refl

or_iff : (a b : Bool) (P Q : Type 0) → (a ≡ true) ↔ P → (b ≡ true) ↔ Q → ((a || b) ≡ true) ↔ (P ⊎ Q)
or_iff true b P Q f g = ((λ _. inl (f.0 refl)), (λ _. refl))
or_iff false b P Q f g =
    ((λ h. inr (g.0 h)), (λ z. elim z [ inl p ↦ absurd (false≢true (f.1 p)) | inr q ↦ g.1 q ]))

ci_contains_iff : (q hay : Text) → (ci_contains q hay ≡ true) ↔ Occurs q (to_lower hay)
unfolding ci_contains
ci_contains_iff q hay = contains_iff q (to_lower hay)

signals_iff :
    (q : Text) (ss : List DecodedSignal)
    → (any (λ (x : DecodedSignal). ci_contains q x.name || ci_contains q x.unit) ss ≡ true)
      ↔ Any (λ h. Occurs q (to_lower h)) (signal_texts ss)
signals_iff q [] = ((λ h. cc), absurd)
signals_iff q (s ∷ ss) =
    rw
      (or_assoc (ci_contains q s.name) (ci_contains q s.unit)
        (any (λ (x : DecodedSignal). ci_contains q x.name || ci_contains q x.unit) ss))
      (or_iff (ci_contains q s.name) _ _ _ (ci_contains_iff q s.name)
        (or_iff (ci_contains q s.unit) _ _ _ (ci_contains_iff q s.unit) (signals_iff q ss)))

texts_iff :
    (q a b : Text) (ss : List DecodedSignal)
    → ((ci_contains q a
          || ci_contains q b
          || any (λ (x : DecodedSignal). ci_contains q x.name || ci_contains q x.unit) ss)
        ≡ true)
      ↔ Any (λ h. Occurs q (to_lower h)) (a ∷ b ∷ signal_texts ss)
texts_iff q a b ss =
    rw
      (or_assoc (ci_contains q a) (ci_contains q b)
        (any (λ (x : DecodedSignal). ci_contains q x.name || ci_contains q x.unit) ss))
      (or_iff (ci_contains q a) _ _ _ (ci_contains_iff q a)
        (or_iff (ci_contains q b) _ _ _ (ci_contains_iff q b) (signals_iff q ss)))

-- A frame matches a query exactly where the query, case ignored, occurs in the identifier as it is
-- printed, in the name of the message, or in the name or the unit of a signal.
pub trace_matches_iff :
    (id : ℕ) (f : CanFrame) (query : Text)
    → (trace_matches id f query ≡ true)
      ↔ Any (λ hay. Occurs (to_lower query) (to_lower hay)) (searched_texts id f)
unfolding trace_matches
trace_matches_iff id f query = texts_iff (to_lower query) (format_id id) f.msg_name f.decoded

abbrev pub Matching : Bool → Text → ℕ × CanFrame → Type 0
Matching b query entry = trace_matches entry.0 entry.1 query ≡ b

-- A search shows every frame of the set exactly once: the upper list has those that match the query,
-- the lower list the others.
pub split_entries_lem :
    (query : Text) (entries : List (ℕ × CanFrame))
    → let r = split_entries query entries in
      All (Matching true query) r.0 × (All (Matching false query) r.1 × Perm (r.0 ++ r.1) entries)
unfolding split_entries
split_entries_lem query [] = (tt, (tt, Perm.nil))
split_entries_lem query ((id, f) ∷ rest) =
    let r = split_entries query rest in
    let (m, (n, p)) = split_entries_lem query rest in
    let P : List (ℕ × CanFrame) × List (ℕ × CanFrame) → Type 0 = λ s.
      All (Matching true query) s.0
      × (All (Matching false query) s.1 × Perm (s.0 ++ s.1) ((id, f) ∷ rest)) in
    if_all P (trace_matches id f query) (λ e. ((e, m), (n, Perm.cons' refl p)))
      (λ e. (m, ((e, n), Perm.trans (perm_middle r.0 r.1) (Perm.cons' refl p))))
