-- ===== src/ProtoLog/Ids.antt =====
-- What ProtoLog keeps for an ID: the maps that the constructor of src/proto/ProtoLog.cpp fills.
use caneo.Common.{
  ℕ, ◌≡◌, refl, sym, ap, ◌∙◌, inl, inr, Option, none, some, List, [], ◌∷◌, arith, ◌==◌,
  if◌then◌else◌, ==_iff, Bool-cases, Option-cases, or_else,
}
use caneo.Common.OrderedMap.{
  nat_key, text_key, pair_key, lookup, insert, lookup-insert, lookup-insert_self, lookup-insert_ne,
}
use caneo.Dbc.{Message, Network}
use caneo.ProtoLog.{
  MessageType, sanitize, NameMap, add_names, names_at, add_field_names, find_type, add_descriptors,
}

-- The messages with an ID.
abbrev pub with_id : ℕ → Network → Network
with_id id [] = []
with_id id (m ∷ ms) = let more = with_id id ms in if m.id == id then m ∷ more else more

abbrev pub names_of : Option NameMap → Network → Option NameMap
names_of o [] = o
names_of o (m ∷ ms) = names_of (some (add_names (names_at o) m.signals)) ms

abbrev pub descriptor_of : List MessageType → Option MessageType → Network → Option MessageType
descriptor_of types o [] = o
descriptor_of types o (m ∷ ms) =
    descriptor_of types (or_else (find_type (sanitize m.name) types) o) ms

pub lookup-add_field_names :
    (id : ℕ) (ms : Network) (names : List (ℕ × NameMap))
    → lookup id (add_field_names names ms) ≡ names_of (lookup id names) (with_id id ms)
unfolding add_field_names
lookup-add_field_names id [] names = refl
lookup-add_field_names id (m ∷ ms) names = elim (Bool-cases (m.id == id)) [
  | inl e ↦
      let q : m.id ≡ id = (==_iff m.id id).0 e in
      rw (e, with_id)
        (lookup-add_field_names id ms
            (insert m.id (add_names (names_at (lookup m.id names)) m.signals) names)
          ∙ ap (λ o. names_of o (with_id id ms))
              (ap
                  (λ i.
                    lookup i
                      (insert m.id (add_names (names_at (lookup m.id names)) m.signals) names))
                  (sym q)
                ∙ lookup-insert_self m.id (add_names (names_at (lookup m.id names)) m.signals) names
                ∙ ap (λ i. some (add_names (names_at (lookup i names)) m.signals)) q))
  | inr e ↦
      rw (e, with_id)
        (lookup-add_field_names id ms
            (insert m.id (add_names (names_at (lookup m.id names)) m.signals) names)
          ∙ ap (λ o. names_of o (with_id id ms))
              (lookup-insert_ne m.id id (add_names (names_at (lookup m.id names)) m.signals) names
                (λ q. ground (arith, e, (==_iff m.id id).1 (sym q)))))
]

add_descriptor : List MessageType → List (ℕ × MessageType) → Message → List (ℕ × MessageType)
add_descriptor types descs m = elim (find_type (sanitize m.name) types) [
  | none ↦ descs
  | some t ↦ insert m.id t descs
]

lookup-add_descriptor :
    (types : List MessageType) (id : ℕ) (descs : List (ℕ × MessageType)) (m : Message)
    → lookup id (add_descriptor types descs m) ≡ (
        if m.id == id
        then or_else (find_type (sanitize m.name) types) (lookup id descs)
        else lookup id descs)
unfolding add_descriptor
lookup-add_descriptor types id descs m = elim (Option-cases (find_type (sanitize m.name) types)) [
  | inl e ↦ rw (e, add_descriptor) (ground arith)
  | inr (t, e) ↦
      rw (e, add_descriptor) (ground (arith, lookup-insert m.id id t descs, ==_iff m.id id))
]

pub lookup-add_descriptors :
    (types : List MessageType) (id : ℕ) (ms : Network) (descs : List (ℕ × MessageType))
    → lookup id (add_descriptors types descs ms)
      ≡ descriptor_of types (lookup id descs) (with_id id ms)
unfolding add_descriptors add_descriptor
lookup-add_descriptors types id [] descs = refl
lookup-add_descriptors types id (m ∷ ms) descs =
    lookup-add_descriptors types id ms (add_descriptor types descs m)
    ∙ elim (Bool-cases (m.id == id)) [
      | inl e ↦
          rw (e, with_id)
            (ap (λ o. descriptor_of types o (with_id id ms))
              (lookup-add_descriptor types id descs m ∙ rw e refl))
      | inr e ↦
          rw (e, with_id)
            (ap (λ o. descriptor_of types o (with_id id ms))
              (lookup-add_descriptor types id descs m ∙ rw e refl))
    ]
