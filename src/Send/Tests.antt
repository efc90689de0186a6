-- ===== src/Send/Tests.antt =====
-- A message of two one-byte signals, and the theorems of SendModel at it.
use caneo.Send.Encoding.{decode-encode_message}
use caneo.Send.{
  raw_of, SendMessage, SendModel, new_message, new_model, set_value, encode_message, encode,
}
use caneo.Common.{
  suc, zero, ℕ, ◌*◌, ◌≡◌, refl, inl, none, some, List, [], ◌∷◌, arith, length, get_elem?, set,
  length-set, All, ◌<◌,
}
use caneo.Common.Text.{Text, codes}
use caneo.Common.OrderedMap.{nat_key, text_key, pair_key}
use caneo.Common.Plain.{plain}
use caneo.Dbc.{Signal, Message, network, ExtendedValueType, Multiplexer}

abbrev read_byte : List ℕ → ℕ → ℕ
read_byte bytes i = elim (get_elem? bytes i) [ none ↦ 0 | some b ↦ b ]

-- A signal that takes the whole byte `i`.
abbrev pub byte_signal : Text → ℕ → Signal
byte_signal name i = record {
  name = name;
  unit = [];
  minimum = 0;
  maximum = 255;
  factor = 1;
  offset = 0;
  start_bit = 8 * i;
  bit_size = 8;
  value_type = ExtendedValueType.integer;
  multiplexer = Multiplexer.no_mux;
  switch_value = 0;
  decode = λ bytes. read_byte bytes i;
  encode = λ raw bytes. set bytes i raw;
  raw_to_phys = λ raw. raw;
  phys_to_raw = λ v. v;
}

abbrev pub two_signals : Message
two_signals = record {
  id = 0x120;
  name = codes "DRIVE";
  message_size = 2;
  signals = byte_signal (codes "torque") 1 ∷ byte_signal (codes "speed") 0 ∷ [];
  mux_signal = none;
}

abbrev pub one_signal : Message
one_signal = record two_signals { id = 7; signals = byte_signal (codes "lamp") 0 ∷ [] }

abbrev pub model : SendModel
model = new_message one_signal ∷ new_message two_signals ∷ []

built : new_model (network (two_signals ∷ one_signal ∷ [])) ≡ inl model
unfolding new_model
built = refl

encoded : encode plain (set_value (set_value model 1 1 9) 1 0 4) 1 ≡ some (4 ∷ 9 ∷ [])
unfolding encode set_value new_message
encoded = refl

abbrev message : SendMessage
message = record {
  id = 0x120;
  name = codes "DRIVE";
  dlc = 2;
  signals =
      record {
        name = codes "speed";
        unit = [];
        min_val = 0;
        max_val = 255;
        value = 4;
        sig = byte_signal (codes "speed") 0;
      }
      ∷ record {
        name = codes "torque";
        unit = [];
        min_val = 0;
        max_val = 255;
        value = 9;
        sig = byte_signal (codes "torque") 1;
      }
      ∷ [];
}

length-set_at : (i raw : ℕ) (bytes : List ℕ) → length (set bytes i raw) ≡ length bytes
length-set_at i raw bytes = length-set bytes i raw

read_set : (i raw : ℕ) (bytes : List ℕ) → i < length bytes → read_byte (set bytes i raw) i ≡ raw
read_set i raw [] h = elim h [ ]
read_set zero raw (b ∷ bytes) h = refl
read_set (suc i) raw (b ∷ bytes) h = read_set i raw bytes (omega arith)

read_apart : (raw : ℕ) (bytes : List ℕ) → read_byte (set bytes 1 raw) 0 ≡ read_byte bytes 0
read_apart raw [] = refl
read_apart raw (b ∷ bytes) = refl

decode-encode_message_example :
    All (λ s. s.sig.decode (encode_message plain message) ≡ raw_of plain s) message.signals
unfolding raw_of
decode-encode_message_example = decode-encode_message plain message (
  (λ bytes e. read_set 0 4 bytes (omega arith)),
  length-set_at 0,
  (read_apart, tt),
  ((λ bytes e. read_set 1 9 bytes (omega arith)), length-set_at 1, tt, tt),
)
