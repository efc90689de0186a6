-- ===== src/ProtoLog.antt =====
-- src/proto: the protobuf messages of decoded frames. ProtoLog has the types of one interface, built from its DBC
-- file, ProtoLogRegistry the ProtoLog of each interface.
pub mod Build
pub mod Names
pub mod Ids
pub mod Laws
mod Tests
use caneo.Common.{
  ℕ, ◌+◌, Bool, ◌&&◌, ◌||◌, Option, none, some, List, [], ◌∷◌, leb, ◌==◌, if◌then◌else◌,
}
use caneo.Common.Text.{Text, codes, text_eq}
use caneo.Common.OrderedMap.{nat_key, text_key, pair_key, lookup, insert}
use caneo.Common.Ieee.{Double}
use caneo.Numerals.{is_digit}
use caneo.Dbc.{Signal, Message, Network}

-- What is asked of the protobuf library: a message type with its fields and their numbers, a file of types.
pub record MessageType : Type 0 where
  pub name : Text
  pub fields : List (Text × ℕ)

pub record FileProto : Type 0 where
  pub name : Text
  pub types : List MessageType

pub record Library : Type 0 where
  -- Whether `BuildFile` accepts a file.
  pub accepts : FileProto → Bool
  -- `SerializeToString` of a message with the fields that are set.
  pub serialize : MessageType → List (Text × Double) → Text
  -- `std::format("{}", x)`
  pub format : Double → Text

is_upper : ℕ → Bool
is_upper c = leb b'A' c && leb c b'Z'

is_lower : ℕ → Bool
is_lower c = leb b'a' c && leb c b'z'

-- `std::isalnum(c) || c == '_'`, in the "C" locale.
pub is_word : ℕ → Bool
unfolding is_upper is_lower
is_word c = (is_upper c || is_lower c) || (is_digit c || c == b'_')

pub replaced : Text → Text
unfolding is_word
replaced [] = []
replaced (c ∷ cs) = (if is_word c then c else b'_') ∷ replaced cs

pub guarded : Text → Text
guarded [] = b'_' ∷ []
guarded (c ∷ cs) = if is_digit c then b'_' ∷ (c ∷ cs) else c ∷ cs

unfoldable pub sanitize : Text → Text
unfolding replaced guarded
sanitize name = guarded (replaced name)

abbrev pub independent : Text
independent = codes "VECTOR__INDEPENDENT_SIG_MSG"

-- The fields of a message type, numbered from `n` on.
pub fields_from : ℕ → List Signal → List (Text × ℕ)
unfolding sanitize
fields_from n [] = []
fields_from n (s ∷ ss) = (sanitize s.name, n) ∷ fields_from (n + 1) ss

pub type_of : Message → MessageType
unfolding sanitize fields_from
type_of m = record { name = sanitize m.name; fields = fields_from 1 m.signals }

-- The messages that the loops do not pass over.
pub logged_messages : Network → Network
logged_messages [] = []
logged_messages (m ∷ ms) =
    let more = logged_messages ms in if text_eq m.name independent then more else m ∷ more

abbrev pub NameMap : Type 0
NameMap = List (Text × Text)

-- `sig_map[original] = safe` for every signal.
pub add_names : NameMap → List Signal → NameMap
unfolding insert sanitize
add_names names [] = names
add_names names (s ∷ ss) = add_names (insert s.name (sanitize s.name) names) ss

abbrev pub names_at : Option NameMap → NameMap
names_at none = []
names_at (some names) = names

-- `field_names_`
pub add_field_names : List (ℕ × NameMap) → Network → List (ℕ × NameMap)
unfolding insert lookup add_names
add_field_names all_names [] = all_names
add_field_names all_names (m ∷ ms) =
    add_field_names (insert m.id (add_names (names_at (lookup m.id all_names)) m.signals) all_names)
      ms

-- `FindMessageTypeByName`
pub find_type : Text → List MessageType → Option MessageType
find_type name [] = none
find_type name (t ∷ ts) = if text_eq t.name name then some t else find_type name ts

-- `descriptors_`
pub add_descriptors : List MessageType → List (ℕ × MessageType) → Network → List (ℕ × MessageType)
unfolding insert find_type sanitize
add_descriptors types descs [] = descs
add_descriptors types descs (m ∷ ms) =
    add_descriptors types
      (elim (find_type (sanitize m.name) types) [ none ↦ descs | some t ↦ insert m.id t descs ]) ms
