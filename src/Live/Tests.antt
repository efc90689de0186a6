-- ===== src/Live/Tests.antt =====
-- A message that arrives while a model runs and clients listen, and the theorem at it.
use caneo.Bus.{frame_of, to_raw}
use caneo.Common.{ℕ, ◌+◌, true, false, none, some, List, [], ◌∷◌, set}
use caneo.Common.Text.{codes}
use caneo.Common.Int.{pos}
use caneo.Common.OrderedMap.{nat_key, text_key, pair_key}
use mathlib.Core.List.{Perm}
use mathlib.Core.List.Perm
use caneo.Common.Plain.{plain}
use caneo.Dbc.{ExtendedValueType, Multiplexer, Signal, Message, Network}
use caneo.Frame.{CanFrame, new_set}
use caneo.Send.{SendMessage, encode_message}
use caneo.Decode.{Decoder}
use caneo.Proto.{Descriptor, Protobuf}
use caneo.ProtoLog.{MessageType, Library}
use caneo.Logs.{new_controller}
use caneo.Model.{Script, failed}
use caneo.Stream.{subscribe}
use caneo.Live.{Live}

abbrev read_byte : List ℕ → ℕ
read_byte [] = 0
read_byte (b ∷ bytes) = b

abbrev speed : Signal
speed = record {
  name = codes "speed";
  unit = codes "km/h";
  minimum = 0;
  maximum = 0;
  factor = 1;
  offset = 0;
  start_bit = 0;
  bit_size = 8;
  value_type = ExtendedValueType.integer;
  multiplexer = Multiplexer.no_mux;
  switch_value = 0;
  decode = read_byte;
  encode = λ raw bytes. set bytes 0 raw;
  raw_to_phys = λ raw. raw;
  phys_to_raw = λ v. v;
}

abbrev drive : Message
drive = record {
  id = 288;
  name = codes "DRIVE";
  message_size = 1;
  signals = speed ∷ [];
  mux_signal = none;
}

-- A second message with the same ID is never used.
abbrev net : Network
net = drive ∷ record drive { name = codes "OTHER" } ∷ []

abbrev decoder : Decoder
decoder = (288, drive) ∷ []

abbrev sent : SendMessage
sent = record {
  id = 288;
  name = codes "DRIVE";
  dlc = 1;
  signals =
      record {
        name = codes "speed";
        unit = codes "km/h";
        min_val = 0;
        max_val = 0;
        value = 90;
        sig = speed;
      }
      ∷ [];
}

abbrev types : Library
types = record { accepts = λ file. true; serialize = λ t values. t.name; format = λ x. [] }

abbrev messages : Protobuf
messages = record { build = λ file. none; serialize = λ d fields. d.name }

abbrev view : MessageType → Descriptor
view t = record { name = t.name; full_name = t.name; file = [] }

abbrev always_fails : Script ℕ
always_fails n get_signal = (n + 1, failed)

abbrev live : Live ℕ
live = record {
  decoders = (codes "can0", decoder) ∷ [];
  proto_registry = [];
  sets = new_set (codes "can0") ∷ [];
  log_controller = new_controller;
  grpc_server = some (subscribe [] ∷ []);
  model_engine =
      some
        (record { lua = 3; store = []; script_name = codes "m"; logger = true; callback = false });
}

-- As it is read on can0, without a time stamp of the kernel.
abbrev read : CanFrame
read = frame_of (codes "can0") (pos 7) (to_raw 288 (encode_message plain sent)) none
