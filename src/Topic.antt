-- ===== src/Topic.antt =====
-- The topics of a log file: src/logger/McapLogger.cpp, lines 245-298, writes them, and
-- src/logger/McapReader.cpp, lines 29-70, reads them.
pub mod RoundTrip
mod Tests
use caneo.Common.{
  ℕ, ◌+◌, ◌-◌, ◌/◌, ◌%◌, ◌^◌, Bool, false, ◌&&◌, ◌||◌, Option, none, some, [], ◌∷◌, ◌++◌, leb, ◌==◌,
  if◌then◌else◌, length, take, drop,
}
use caneo.Common.Text.{Text, codes, text_eq}
use caneo.Numerals.{format_id, stoul16}

-- `interface + "/" + descriptor->name()`, or the hexadecimal ID of a frame that no DBC describes.
unfoldable pub base_topic : Text → Option Text → ℕ → Text
unfolding format_id
base_topic interface none id = interface ++ (b'/' ∷ format_id id)
base_topic interface (some name) id = interface ++ (b'/' ∷ name)

abbrev pub data_suffix : Text
data_suffix = codes "/data"

abbrev pub raw_suffix : Text
raw_suffix = codes "/raw"

abbrev pub ratio_suffix : Text
ratio_suffix = codes "/update_ratio"

pub data ChannelKind : Type 0 where
  data_kind raw_kind other_kind : ChannelKind

pub record ChannelInfo : Type 0 where
  pub kind : ChannelKind
  pub iface : Text
  pub msg_name : Text

-- What stands before the first slash and what stands after it, nothing where there is none.
pub split_slash : Text → Option (Text × Text)
split_slash [] = none
split_slash (c ∷ cs) =
    let rest = split_slash cs in
    if c == b'/' then some ([], cs) else elim rest [ none ↦ none | some (a, b) ↦ some (c ∷ a, b) ]

abbrev info_of : ChannelKind → Option (Text × Text) → Option ChannelInfo
info_of kind none = none
info_of kind (some (a, b)) = some (record { kind = kind; iface = a; msg_name = b })

-- One turn of the loop of classify_topic; nothing stands for `continue`.
try_suffix : ChannelKind → Text → Text → Option ChannelInfo
unfolding split_slash
try_suffix kind suffix topic =
    if leb (length topic) (length suffix)
    then none
    else if text_eq (drop (length topic - length suffix) topic) suffix
    then info_of kind (split_slash (take (length topic - length suffix) topic))
    else none

unfoldable pub classify_topic : Text → ChannelInfo
unfolding try_suffix
classify_topic topic = elim (try_suffix data_kind data_suffix topic) [
  | some info ↦ info
  | none ↦ elim (try_suffix raw_kind raw_suffix topic) [
    | some info ↦ info
    | none ↦ record { kind = other_kind; iface = []; msg_name = [] }
  ]
]

has_0x : Text → Bool
has_0x (z ∷ x ∷ d ∷ cs) = z == b'0' && (x == b'x' || x == b'X')
has_0x _ = false

-- The cast to `uint32_t`, and `hash & 0x7FF`.
abbrev id_or_hash : Option ℕ → ℕ → ℕ
id_or_hash none h = h % 2048
id_or_hash (some n) h = n % 2 ^ 32

-- `hash` is `std::hash<std::string>`, which the library leaves open.
unfoldable pub derive_can_id : (Text → ℕ) → Text → ℕ
unfolding has_0x stoul16
derive_can_id hash msg_name =
    id_or_hash (if has_0x msg_name then stoul16 (drop 2 msg_name) else none) (hash msg_name)
