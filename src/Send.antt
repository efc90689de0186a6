-- ===== src/Send.antt =====
-- src/send/SendModel: the messages of a DBC file with a value for each signal, and their encoding.
-- `std::ranges::sort` is insertion sort, one of the orders that it may give equal keys.
pub mod Sorting
pub mod Encoding
mod Tests
use caneo.Common.{
  ℕ, zero, suc, ◌⊎◌, inl, inr, Option, none, some, List, [], ◌∷◌, map, get_elem?, replicate,
}
use caneo.Common.Text.{Text}
use caneo.Common.OrderedMap.{nat_key, text_key, pair_key}
use caneo.Common.Ieee.{Double, Ieee}
use caneo.Dbc.{Signal, Message, Loaded, cannot_open, cannot_parse, network, ExtendedValueType}
use Sorting.{sort_by}

pub record SendSignal : Type 0 where
  pub name : Text
  pub unit : Text
  pub min_val : Double
  pub max_val : Double
  pub value : Double
  pub sig : Signal

pub record SendMessage : Type 0 where
  pub id : ℕ
  pub name : Text
  pub dlc : ℕ
  pub signals : List SendSignal

abbrev pub SendModel : Type 0
SendModel = List SendMessage

pub new_signal : Signal → SendSignal
new_signal s = record {
  name = s.name;
  unit = s.unit;
  min_val = s.minimum;
  max_val = s.maximum;
  value = 0;
  sig = s;
}

pub new_message : Message → SendMessage
unfolding new_signal sort_by
new_message m = record {
  id = m.id;
  name = m.name;
  dlc = m.message_size;
  signals = sort_by (λ (s : SendSignal). s.sig.start_bit) (map new_signal m.signals);
}

pub data Error : Type 0 where
  dbc_not_open dbc_not_parsed : Error

-- The constructor; `inr` is the exception that it throws.
unfoldable pub new_model : Loaded → SendModel ⊎ Error
unfolding new_message sort_by
new_model cannot_open = inr dbc_not_open
new_model cannot_parse = inr dbc_not_parsed
new_model (network msgs) = inl (sort_by (λ (m : SendMessage). m.id) (map new_message msgs))

unfoldable pub set_signal : List SendSignal → ℕ → Double → List SendSignal
set_signal [] i v = []
set_signal (s ∷ ss) zero v = record s { value = v } ∷ ss
set_signal (s ∷ ss) (suc i) v = s ∷ set_signal ss i v

-- SendModel::set_value. Its callers have checked both indices; a bad one changes nothing here.
unfoldable pub set_value : SendModel → ℕ → ℕ → Double → SendModel
unfolding set_signal
set_value [] mi si v = []
set_value (m ∷ ms) zero si v = record m { signals = set_signal m.signals si v } ∷ ms
set_value (m ∷ ms) (suc mi) si v = m ∷ set_value ms mi si v

-- The raw value of a signal, by its value type.
unfoldable pub raw_of : Ieee → SendSignal → ℕ
raw_of fp s = elim s.sig.value_type [
  | ExtendedValueType.float ↦ fp.double_to_float s.value
  | ExtendedValueType.double ↦ s.value
  | ExtendedValueType.integer ↦ s.sig.phys_to_raw s.value
]

encode_signals : Ieee → List SendSignal → List ℕ → List ℕ
unfolding raw_of
encode_signals fp [] bytes = bytes
encode_signals fp (s ∷ ss) bytes = encode_signals fp ss (s.sig.encode (raw_of fp s) bytes)

unfoldable pub encode_message : Ieee → SendMessage → List ℕ
unfolding encode_signals
encode_message fp m = encode_signals fp m.signals (replicate m.dlc 0)

-- SendModel::encode; nothing stands for an index out of range.
unfoldable pub encode : Ieee → SendModel → ℕ → Option (List ℕ)
unfolding encode_message
encode fp model mi = elim (get_elem? model mi) [ none ↦ none | some m ↦ some (encode_message fp m) ]
