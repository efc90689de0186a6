-- ===== src/ProtoLog/Tests.antt =====
-- A network with one message, and the theorems at it.
use caneo.Common.{◌≡◌, refl, inl, true, none, some, List, [], ◌∷◌}
use caneo.Common.Text.{Text, codes}
use caneo.Common.Int.{pos}
use caneo.Common.OrderedMap.{nat_key, text_key, pair_key, lookup}
use caneo.Common.Ieee.{Double}
use caneo.Frame.{CanFrame, DecodedSignal}
use caneo.Dbc.{ExtendedValueType, Multiplexer, Signal, Message, Network, network}
use caneo.ProtoLog.{Library, sanitize, type_of, logged_messages, find_type}
use caneo.ProtoLog.Build.{ProtoLog, file_of, build_message, new_log}
use caneo.ProtoLog.Names.{is_identifier, sanitize_lem}
use caneo.ProtoLog.Laws.{last_set, build_message_lem}

abbrev signal : Text → Signal
signal name = record {
  name = name;
  unit = [];
  minimum = 0;
  maximum = 0;
  factor = 1;
  offset = 0;
  start_bit = 0;
  bit_size = 8;
  value_type = ExtendedValueType.integer;
  multiplexer = Multiplexer.no_mux;
  switch_value = 0;
  decode = λ bytes. 0;
  encode = λ raw bytes. bytes;
  raw_to_phys = λ raw. raw;
  phys_to_raw = λ x. x;
}

abbrev drive : Message
drive = record {
  id = 288;
  name = codes "DRIVE";
  message_size = 1;
  signals = signal (codes "km/h") ∷ signal (codes "rpm") ∷ [];
  mux_signal = none;
}

abbrev net : Network
net = record drive { id = 0; name = codes "VECTOR__INDEPENDENT_SIG_MSG" } ∷ drive ∷ []

-- A library that accepts every file.
abbrev library : Library
library = record { accepts = λ file. true; serialize = λ t values. t.name; format = λ x. [] }

abbrev drive_log : ProtoLog
drive_log = record {
  interface = codes "can0";
  descriptors =
      (288, record { name = codes "DRIVE"; fields = (codes "km_h", 1) ∷ (codes "rpm", 2) ∷ [] })
      ∷ [];
  field_names = (288, (codes "km/h", codes "km_h") ∷ (codes "rpm", codes "rpm") ∷ []) ∷ [];
}

built : new_log library (codes "can0") (network net) ≡ inl drive_log
unfolding new_log file_of sanitize
built = refl

abbrev shown : Text → Double → DecodedSignal
shown name x = record { name = name; value = x; unit = []; min_val = 0; max_val = 0 }

abbrev frame : CanFrame
frame = record {
  header = record { id = 288; interface = codes "can0"; dlc = 1 };
  payload = 7 ∷ [];
  decoded = shown (codes "km/h") 5 ∷ shown (codes "x") 6 ∷ [];
  msg_name = codes "DRIVE";
  timestamp = pos 1000;
}

sanitize_lem_example :
    (is_identifier (sanitize (codes "1 a")) ≡ true)
    × (sanitize (sanitize (codes "1 a")) ≡ sanitize (codes "1 a"))
sanitize_lem_example = sanitize_lem (codes "1 a")

digit_first : sanitize (codes "1 a") ≡ codes "_1_a"
unfolding sanitize
digit_first = refl

build_message_lem_example :
    (values : List (Text × Double)) × (build_message drive_log frame ≡ some (type_of drive, values))
    × ((field : Text) → lookup field values ≡ last_set drive.signals field frame.decoded)
unfolding logged_messages find_type type_of file_of
build_message_lem_example =
    build_message_lem library (codes "can0") net drive_log drive frame built refl refl
