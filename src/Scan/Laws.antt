-- ===== src/Scan/Laws.antt =====
-- What the scans of src/logger/McapReader.cpp find.
use caneo.Common.{
  inl, inr, not, is_empty, Bool-cases, if_all, ◌≡◌, refl, sym, ap, ◌∙◌, Bool, true, false, ◌&&◌,
  ◌||◌, Option, none, some, List, [], ◌∷◌, arith, any,
}
use caneo.Common.Text.{Text}
use caneo.Common.OrderedMap.{
  nat_key, text_key, pair_key, key_eq, key_eq_iff, lookup, insert, lookup-insert,
}
use caneo.Topic.{ChannelKind, data_kind, raw_kind, other_kind, ChannelInfo, classify_topic}
use caneo.Scan.{
  is_raw, is_data, TextSet, shows_interface, shows_message, add_interface, add_message,
  scan_interfaces, scan_messages, set_at,
}

abbrev pub has : {V : Type 0} → Option V → Bool
has none = false
has (some _) = true

-- A raw channel of an interface that has a name.
abbrev pub of_interface : Text → ChannelKind → Text → Bool
of_interface iface raw_kind owner = key_eq iface owner && not (is_empty iface)
of_interface iface data_kind owner = false
of_interface iface other_kind owner = false

-- A data channel of an interface and a message that have names.
abbrev pub of_message : Text → Text → ChannelKind → Text → Text → Bool
of_message iface name data_kind owner msg =
    (key_eq iface owner && not (is_empty iface)) && (key_eq name msg && not (is_empty name))
of_message iface name raw_kind owner msg = false
of_message iface name other_kind owner msg = false

-- Whether some topic is a raw channel of the interface.
abbrev pub some_interface : Text → List Text → Bool
some_interface iface topics =
    any (λ t. of_interface iface (classify_topic t).kind (classify_topic t).iface) topics

-- Whether some topic is a data channel of the interface and the message.
abbrev pub some_message : Text → Text → List Text → Bool
some_message iface name topics =
    any
      (λ t.
        of_message iface name (classify_topic t).kind (classify_topic t).iface
          (classify_topic t).msg_name)
      topics

key_eq-is_empty : (a b : Text) → (not (is_empty b) && key_eq a b) ≡ (key_eq a b && not (is_empty a))
key_eq-is_empty a b = elim (Bool-cases (key_eq a b)) [
  | inl e ↦ let q : a ≡ b = (key_eq_iff a b).0 e in rw (e, q) (ground arith)
  | inr e ↦ rw e (ground arith)
]

raw_lem :
    (iface : Text) (k : ChannelKind) (owner : Text)
    → ((is_raw k && not (is_empty owner)) && key_eq iface owner) ≡ of_interface iface k owner
unfolding is_raw
raw_lem iface raw_kind owner = key_eq-is_empty iface owner
raw_lem iface data_kind owner = refl
raw_lem iface other_kind owner = refl

data_lem :
    (iface name : Text) (k : ChannelKind) (owner msg : Text)
    → ((is_data k && (not (is_empty owner) && not (is_empty msg)))
        && (key_eq iface owner && key_eq name msg))
      ≡ of_message iface name k owner msg
unfolding is_data
data_lem iface name data_kind owner msg =
    rw (← key_eq-is_empty iface owner, ← key_eq-is_empty name msg) (ground arith)
data_lem iface name raw_kind owner msg = refl
data_lem iface name other_kind owner msg = refl

or_assoc : (a b c : Bool) → ((a || b) || c) ≡ (a || (b || c))
or_assoc true b c = refl
or_assoc false b c = refl

or_false : (a : Bool) → (a || false) ≡ a
or_false true = refl
or_false false = refl

has-add_interface :
    (iface : Text) (s : TextSet) (info : ChannelInfo)
    → has (lookup iface (add_interface s info))
      ≡ (has (lookup iface s) || of_interface iface info.kind info.iface)
unfolding add_interface shows_interface
has-add_interface iface s info =
    rw (← raw_lem iface info.kind info.iface) (ground (arith, lookup-insert info.iface iface tt s))

scan_interfaces_lem :
    (iface : Text) (s : TextSet) (topics : List Text)
    → has (lookup iface (scan_interfaces s topics))
      ≡ (has (lookup iface s) || some_interface iface topics)
unfolding scan_interfaces
scan_interfaces_lem iface s [] = sym (or_false (has (lookup iface s)))
scan_interfaces_lem iface s (t ∷ ts) =
    scan_interfaces_lem iface (add_interface s (classify_topic t)) ts
    ∙ ap (λ b. b || some_interface iface ts) (has-add_interface iface s (classify_topic t))
    ∙ or_assoc (has (lookup iface s)) _ (some_interface iface ts)

-- The messages that a scan holds for an interface.
abbrev pub holds : Text → Text → List (Text × TextSet) → Bool
holds iface name ms = has (lookup name (set_at (lookup iface ms)))

holds-insert :
    (iface name a b : Text) (ms : List (Text × TextSet))
    → holds iface name (insert a (insert b tt (set_at (lookup a ms))) ms)
      ≡ (holds iface name ms || (key_eq iface a && key_eq name b))
unfolding set_at
holds-insert iface name a b ms = ground (
  arith,
  key_eq_iff iface a,
  lookup-insert a iface (insert b tt (set_at (lookup a ms))) ms,
  lookup-insert b name tt (set_at (lookup a ms)),
)

holds-add_message :
    (iface name : Text) (ms : List (Text × TextSet)) (info : ChannelInfo)
    → holds iface name (add_message ms info)
      ≡ (holds iface name ms || of_message iface name info.kind info.iface info.msg_name)
unfolding add_message shows_message
holds-add_message iface name ms info =
    rw (← data_lem iface name info.kind info.iface info.msg_name) (
      if_all
        (λ r. holds iface name r ≡ (
          holds iface name ms
          || (shows_message info && (key_eq iface info.iface && key_eq name info.msg_name))))
        (shows_message info) (λ h. rw h (holds-insert iface name info.iface info.msg_name ms))
        (λ h. rw h (sym (or_false (holds iface name ms)))))

scan_messages_lem :
    (iface name : Text) (ms : List (Text × TextSet)) (topics : List Text)
    → holds iface name (scan_messages ms topics)
      ≡ (holds iface name ms || some_message iface name topics)
unfolding scan_messages
scan_messages_lem iface name ms [] = sym (or_false (holds iface name ms))
scan_messages_lem iface name ms (t ∷ ts) =
    scan_messages_lem iface name (add_message ms (classify_topic t)) ts
    ∙ ap (λ b. b || some_message iface name ts) (holds-add_message iface name ms (classify_topic t))
    ∙ or_assoc (holds iface name ms) _ (some_message iface name ts)

-- scan_interfaces finds a name exactly if it is not empty and a topic is classified as a raw channel of an interface
-- of this name; scan_messages finds a message under an interface exactly if neither name is empty and a topic is
-- classified as a data channel of the two.
pub scans_lem :
    (topics : List Text) (iface name : Text)
    → (has (lookup iface (scan_interfaces [] topics)) ≡ some_interface iface topics)
      × (holds iface name (scan_messages [] topics) ≡ some_message iface name topics)
unfolding set_at lookup
scans_lem topics iface name =
    (scan_interfaces_lem iface [] topics, scan_messages_lem iface name [] topics)
