-- ===== src/Proto.antt =====
-- What the program uses of the protobuf library: descriptors, and messages as their fields. Nothing
-- here is code of the repository.
use caneo.Common.Ieee.{Double}
use caneo.Common.{ℕ, Option, List}
use caneo.Common.Text.{Text}
use caneo.Common.OrderedMap.{nat_key, text_key, pair_key}

pub record Descriptor : Type 0 where
  pub name : Text
  pub full_name : Text
  -- The serialized FileDescriptorSet of the file that declares it.
  pub file : Text

pub data Value : Type 0 where
  uint32 : ℕ → Value
  uint32s : List ℕ → Value
  double : Double → Value

abbrev pub Fields : Type 0
Fields = List (Text × Value)

pub record Protobuf : Type 0 where
  -- `DescriptorPool::BuildFile` and `FindMessageTypeByName`, for the file of that name.
  pub build : Text → Option Descriptor
  pub serialize : Descriptor → Fields → Text

-- What the reader of a log file uses. A message that was parsed has a value for every field of its
-- descriptor, in the descriptor's order.
pub record ProtobufReader : Type 0 where
  -- `FileDescriptorSet::ParseFromArray`, `BuildFile` and `FindMessageTypeByName`, for a schema's name and data.
  pub find_type : Text → Text → Option Descriptor
  -- `ParseFromArray`
  pub parse : Descriptor → Text → Option Fields
