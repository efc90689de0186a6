-- ===== src/ProtoLog/Laws.antt =====
-- The message that ProtoLog makes of a decoded frame: src/proto/ProtoLog.cpp.
use caneo.Common.{
  ℕ, ◌+◌, ◌≡◌, refl, sym, ap, ◌∙◌, inl, inr, Bool, true, false, ◌&&◌, Option, none, some, List, [],
  ◌∷◌, arith, if◌then◌else◌, Bool-cases, any, or_else, or_else_assoc,
}
use caneo.Common.Text.{Text, text_eq, text_eq_iff}
use caneo.Common.OrderedMap.{
  nat_key, text_key, pair_key, lookup, insert, lookup-insert, lookup-insert_self, lookup-insert_ne,
}
use caneo.Common.Ieee.{Double}
use caneo.Frame.{CanFrame, DecodedSignal}
use caneo.Dbc.{Signal, Message, Network, network}
use caneo.ProtoLog.{
  MessageType, Library, sanitize, fields_from, type_of, logged_messages, NameMap, add_names,
  add_field_names, find_type, add_descriptors,
}
use caneo.ProtoLog.Build.{
  ProtoLog, file_of, has_field, set_fields, build_message, new_log, build_failed,
}
use caneo.ProtoLog.Ids.{
  with_id, names_of, descriptor_of, lookup-add_field_names, lookup-add_descriptors,
}

abbrev pub has_signal : List Signal → Text → Bool
has_signal ss name = any (λ (s : Signal). text_eq s.name name) ss

lookup-add_names :
    (name : Text) (ss : List Signal) (names : NameMap)
    → lookup name (add_names names ss)
      ≡ (if has_signal ss name then some (sanitize name) else lookup name names)
unfolding add_names
lookup-add_names name [] names = refl
lookup-add_names name (s ∷ ss) names =
    lookup-add_names name ss (insert s.name (sanitize s.name) names)
    ∙ (elim (Bool-cases (text_eq s.name name)) [
      | inl e ↦
          let q : s.name ≡ name = (text_eq_iff s.name name).0 e in
          rw (e) (
            ap (λ o. if has_signal ss name then some (sanitize name) else o)
              (ap (λ i. lookup i (insert s.name (sanitize s.name) names)) (sym q)
                ∙ lookup-insert_self s.name (sanitize s.name) names
                ∙ ap (λ i. some (sanitize i)) q)
            ∙ ground arith)
      | inr e ↦ rw (e) (
          ap (λ o. if has_signal ss name then some (sanitize name) else o)
            (lookup-insert_ne s.name name (sanitize s.name) names
              (λ q. ground (arith, e, (text_eq_iff s.name name).1 (sym q)))))
    ])

has_field-fields_from :
    (name : Text) (ss : List Signal) (n : ℕ)
    → has_signal ss name ≡ true
    → has_field (sanitize name) (fields_from n ss) ≡ true
unfolding has_field fields_from
has_field-fields_from name [] n h = ground (arith, h)
has_field-fields_from name (s ∷ ss) n h = elim (Bool-cases (text_eq s.name name)) [
  | inl e ↦
      let q : s.name ≡ name = (text_eq_iff s.name name).0 e in
      rw ((text_eq_iff (sanitize s.name) (sanitize name)).1 (ap sanitize q)) refl
  | inr e ↦
      let r = has_field-fields_from name ss (n + 1) (ground (arith, h, e)) in ground (arith, r)
]

-- What a signal of a frame sets a field to.
abbrev sets : List Signal → Text → DecodedSignal → Option Double
sets ss field d =
    if has_signal ss d.name && text_eq field (sanitize d.name) then some d.value else none

-- The last value that a field is set to.
abbrev pub last_set : List Signal → Text → List DecodedSignal → Option Double
last_set ss field [] = none
last_set ss field (d ∷ ds) = or_else (last_set ss field ds) (sets ss field d)

set_field : NameMap → MessageType → List (Text × Double) → DecodedSignal → List (Text × Double)
set_field names t values s = elim (lookup s.name names) [
  | none ↦ values
  | some safe ↦ if has_field safe t.fields then insert safe s.value values else values
]

lookup-set_field :
    (field : Text) (ss : List Signal) (t : MessageType) (values : List (Text × Double))
    (d : DecodedSignal)
    → t.fields ≡ fields_from 1 ss
    → lookup field (set_field (add_names [] ss) t values d)
      ≡ or_else (sets ss field d) (lookup field values)
unfolding set_field lookup
lookup-set_field field ss t values d h = elim (Bool-cases (has_signal ss d.name)) [
  | inl e ↦
      let n : lookup d.name (add_names [] ss) ≡ some (sanitize d.name) =
        lookup-add_names d.name ss [] ∙ rw e refl in
      let k : has_field (sanitize d.name) t.fields ≡ true =
        ap (has_field (sanitize d.name)) h ∙ has_field-fields_from d.name ss 1 e in
      rw (n, set_field, k, e)
        (lookup-insert (sanitize d.name) field d.value values
          ∙ either (text_eq field (sanitize d.name)))
  | inr e ↦
      let n : lookup d.name (add_names [] ss) ≡ none = lookup-add_names d.name ss [] ∙ rw e refl in
      rw (n, set_field, e) refl
]
  where
    either :
        (b : Bool)
        → (if b then some d.value else lookup field values)
          ≡ or_else (if b then some d.value else none) (lookup field values)
    either true = refl
    either false = refl

lookup-set_fields :
    (field : Text) (ss : List Signal) (t : MessageType) (ds : List DecodedSignal)
    (values : List (Text × Double))
    → t.fields ≡ fields_from 1 ss
    → lookup field (set_fields (add_names [] ss) t values ds)
      ≡ or_else (last_set ss field ds) (lookup field values)
unfolding set_fields set_field
lookup-set_fields field ss t [] values h = refl
lookup-set_fields field ss t (d ∷ ds) values h =
    lookup-set_fields field ss t ds (set_field (add_names [] ss) t values d) h
    ∙ ap (or_else (last_set ss field ds)) (lookup-set_field field ss t values d h)
    ∙ sym (or_else_assoc (last_set ss field ds) (sets ss field d) (lookup field values))

or_else-none : (o : Option Double) → or_else o none ≡ o
or_else-none none = refl
or_else-none (some a) = refl

module _ (lib : Library) where
  built :
      (b : Bool) (l : ProtoLog) (log : ProtoLog)
      → (if b then inl l else inr build_failed) ≡ inl log
      → l ≡ log
  built true l log h = cc
  built false l log h = cc

  -- Once the ProtoLog of an interface is built, a frame with the ID of just one of its messages is made a message
  -- of that message's type, in which a field has the last value of the signals of this name that the message has,
  -- and is not set if there is none; if no earlier type has the same name.
  pub build_message_lem :
      (interface : Text) (msgs : Network) (log : ProtoLog) (m : Message) (f : CanFrame)
      → new_log lib interface (network msgs) ≡ inl log
      → with_id f.header.id (logged_messages msgs) ≡ m ∷ []
      → find_type (sanitize m.name) (file_of interface msgs).types ≡ some (type_of m)
      → (values : List (Text × Double)) × (build_message log f ≡ some (type_of m, values))
        × ((field : Text) → lookup field values ≡ last_set m.signals field f.decoded)
  unfolding new_log build_message lookup type_of
  build_message_lem interface msgs log m f h w t =
      let l : ProtoLog = record {
        interface = interface;
        descriptors = add_descriptors (file_of interface msgs).types [] (logged_messages msgs);
        field_names = add_field_names [] (logged_messages msgs);
      } in
      let e : l ≡ log = built (lib.accepts (file_of interface msgs)) l log h in
      let d : lookup f.header.id log.descriptors ≡ some (type_of m) =
        ap (λ (x : ProtoLog). lookup f.header.id x.descriptors) (sym e)
        ∙ lookup-add_descriptors (file_of interface msgs).types f.header.id (logged_messages msgs)
            []
        ∙ ap (descriptor_of (file_of interface msgs).types none) w
        ∙ ap (λ o. or_else o none) t in
      let n : lookup f.header.id log.field_names ≡ some (add_names [] m.signals) =
        ap (λ (x : ProtoLog). lookup f.header.id x.field_names) (sym e)
        ∙ lookup-add_field_names f.header.id (logged_messages msgs) []
        ∙ ap (names_of none) w in
      let values = set_fields (add_names [] m.signals) (type_of m) [] f.decoded in
      (
        values,
        rw (d, build_message, n) refl,
        λ field.
            lookup-set_fields field m.signals (type_of m) f.decoded [] refl
            ∙ or_else-none (last_set m.signals field f.decoded),
      )
