-- ===== src/Decode/Tests.antt =====
-- A network of one message, and the theorems on decoding at it. A signal is one byte.
use caneo.Decode.{Decoder, new_decoder, add_interface, decode_frame, decode}
use caneo.Common.{ℕ, ◌≡◌, refl, false, inl, none, List, [], ◌∷◌, map, length, set, length-set}
use caneo.Common.Text.{codes}
use caneo.Common.Int.{pos}
use caneo.Common.OrderedMap.{nat_key, text_key, pair_key}
use mathlib.Core.List.{Perm}
use mathlib.Core.List.Perm
use caneo.Common.Plain.{plain}
use caneo.Dbc.{ExtendedValueType, Multiplexer, Signal, Message, Network, network}
use caneo.Frame.{CanFrame}
use caneo.Send.{raw_of, SendMessage, encode_message}
use caneo.Decode.Laws.{first_message, shown, decoded_by, decode_lem, decode_frame-add_interface}
use caneo.Decode.Loop.{sent_value, decode-encode}

abbrev read_byte : List ℕ → ℕ
read_byte [] = 0
read_byte (b ∷ bytes) = b

abbrev speed : Signal
speed = record {
  name = codes "speed";
  unit = codes "km/h";
  minimum = 0;
  maximum = 0;
  factor = 1;
  offset = 0;
  start_bit = 0;
  bit_size = 8;
  value_type = ExtendedValueType.integer;
  multiplexer = Multiplexer.no_mux;
  switch_value = 0;
  decode = read_byte;
  encode = λ raw bytes. set bytes 0 raw;
  raw_to_phys = λ raw. raw;
  phys_to_raw = λ v. v;
}

abbrev drive : Message
drive = record {
  id = 288;
  name = codes "DRIVE";
  message_size = 1;
  signals = speed ∷ [];
  mux_signal = none;
}

-- A second message with the same ID is never used.
abbrev net : Network
net = drive ∷ record drive { name = codes "OTHER" } ∷ []

abbrev decoder : Decoder
decoder = (288, drive) ∷ []

loaded : new_decoder (network net) ≡ inl decoder
unfolding new_decoder
loaded = refl

abbrev sent : SendMessage
sent = record {
  id = 288;
  name = codes "DRIVE";
  dlc = 1;
  signals =
      record {
        name = codes "speed";
        unit = codes "km/h";
        min_val = 0;
        max_val = 0;
        value = 90;
        sig = speed;
      }
      ∷ [];
}

abbrev frame : CanFrame
frame = record {
  header = record { id = 288; interface = codes "can0"; dlc = 1 };
  payload = encode_message plain sent;
  decoded = [];
  msg_name = [];
  timestamp = pos 7;
}

decode_lem_example : decode plain decoder frame ≡ shown plain (first_message 288 net) frame
decode_lem_example = decode_lem plain net decoder frame loaded

registered : add_interface [] (codes "can0") (network net) ≡ inl ((codes "can0", decoder) ∷ [])
unfolding add_interface
registered = refl

decode_frame-add_interface_example :
    decode_frame plain ((codes "can0", decoder) ∷ []) frame
    ≡ decoded_by plain (new_decoder (network net)) frame (decode_frame plain [] frame)
decode_frame-add_interface_example =
    decode_frame-add_interface plain [] ((codes "can0", decoder) ∷ []) (codes "can0") (network net)
      frame registered

read_written : (bytes : List ℕ) → length bytes ≡ 1 → read_byte (set bytes 0 90) ≡ 90
read_written [] e = cc
read_written (b ∷ bytes) e = refl

below : plain.lt 90 0 ≡ false
below = refl

decode-encode_example :
    Perm (decode plain decoder frame).decoded (map (sent_value plain) sent.signals)
unfolding raw_of
decode-encode_example =
    decode-encode plain net decoder drive sent frame loaded refl (Perm.refl (speed ∷ [])) refl refl
      (read_written, (λ raw bytes. length-set bytes 0 raw), tt, tt) ((refl, below), tt) refl refl
