-- ===== src/ProtoLog/Build.antt =====
-- ProtoLog with its constructor and its messages, and ProtoLogRegistry: src/proto.
use caneo.Common.{
  ℕ, ◌⊎◌, inl, inr, Bool, Option, none, some, List, [], ◌∷◌, ◌++◌, map, if◌then◌else◌, any,
}
use caneo.Common.Text.{Text, codes, text_eq}
use caneo.Common.OrderedMap.{nat_key, text_key, pair_key, lookup, insert}
use caneo.Common.Ieee.{Double}
use caneo.Frame.{CanFrame, DecodedSignal}
use caneo.Dbc.{Network, Loaded, cannot_open, cannot_parse, network}
use caneo.ProtoLog.{
  MessageType, FileProto, Library, type_of, logged_messages, NameMap, add_field_names,
  add_descriptors,
}

pub record ProtoLog : Type 0 where
  pub interface : Text
  pub descriptors : List (ℕ × MessageType)
  pub field_names : List (ℕ × NameMap)

pub data Error : Type 0 where
  open_failed parse_failed build_failed : Error

unfoldable pub file_of : Text → Network → FileProto
unfolding type_of logged_messages
file_of interface msgs = record {
  name = interface ++ codes ".proto";
  types = map type_of (logged_messages msgs);
}

-- The type for an ID.
pub descriptor : ProtoLog → ℕ → Option MessageType
unfolding lookup
descriptor log id = lookup id log.descriptors

-- Reading the fields that are set, in the order of the type.
pub describe_fields : (Double → Text) → List (Text × Double) → List (Text × ℕ) → Text
unfolding lookup
describe_fields format values [] = []
describe_fields format values ((name, n) ∷ rest) =
    let more = describe_fields format values rest in
    elim (lookup name values) [
      | none ↦ more
      | some x ↦ codes "  " ++ (name ++ (codes ": " ++ (format x ++ (10 ∷ more))))
    ]

-- `FindFieldByName`
unfoldable pub has_field : Text → List (Text × ℕ) → Bool
has_field name fields = any (λ (f : Text × ℕ). text_eq f.0 name) fields

-- The loop of build_message; a message is the values of the fields that are set.
unfoldable pub set_fields :
    NameMap → MessageType → List (Text × Double) → List DecodedSignal → List (Text × Double)
unfolding lookup insert has_field
set_fields names t values [] = values
set_fields names t values (s ∷ ss) =
    set_fields names t
      (elim (lookup s.name names) [
        | none ↦ values
        | some safe ↦ if has_field safe t.fields then insert safe s.value values else values
      ])
      ss

unfoldable pub build_message : ProtoLog → CanFrame → Option (MessageType × List (Text × Double))
unfolding lookup set_fields
build_message log frame = elim (lookup frame.header.id log.descriptors) [
  | none ↦ none
  | some t ↦ elim (lookup frame.header.id log.field_names) [
    | none ↦ none
    | some names ↦ some (t, set_fields names t [] frame.decoded)
  ]
]

abbrev pub Registry : Type 0
Registry = List (Text × ProtoLog)

-- ProtoLogRegistry::get
pub get : Registry → Text → Option ProtoLog
unfolding lookup
get reg interface = lookup interface reg

module _ (lib : Library) where
  -- The constructor, with its exceptions.
  unfoldable pub new_log : Text → Loaded → ProtoLog ⊎ Error
  unfolding file_of logged_messages add_field_names add_descriptors
  new_log interface cannot_open = inr open_failed
  new_log interface cannot_parse = inr parse_failed
  new_log interface (network msgs) =
      if lib.accepts (file_of interface msgs)
      then inl (record {
        interface = interface;
        descriptors = add_descriptors (file_of interface msgs).types [] (logged_messages msgs);
        field_names = add_field_names [] (logged_messages msgs);
      })
      else inr build_failed

  unfoldable pub serialize_log : ProtoLog → CanFrame → Text
  unfolding build_message
  serialize_log log frame = elim (build_message log frame) [
    | none ↦ []
    | some (t, values) ↦ lib.serialize t values
  ]

  pub describe_log : ProtoLog → CanFrame → Text
  unfolding build_message describe_fields
  describe_log log frame = elim (build_message log frame) [
    | none ↦ []
    | some (t, values) ↦ describe_fields lib.format values t.fields
  ]

  -- ProtoLogRegistry::add_interface: `dbc_path` is what the path leads to, nothing where it is empty. An error is
  -- only printed.
  unfoldable pub add_interface : Registry → Text → Option Loaded → Registry
  unfolding new_log insert
  add_interface reg interface none = reg
  add_interface reg interface (some dbc) = elim (new_log interface dbc) [
    | inl log ↦ insert interface log reg
    | inr e ↦ reg
  ]

  unfoldable pub serialize : Registry → CanFrame → Text
  unfolding get serialize_log
  serialize reg frame = elim (get reg frame.header.interface) [
    | none ↦ []
    | some log ↦ serialize_log log frame
  ]

  pub describe : Registry → CanFrame → Text
  unfolding get describe_log
  describe reg frame = elim (get reg frame.header.interface) [
    | none ↦ []
    | some log ↦ describe_log log frame
  ]
