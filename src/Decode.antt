-- ===== src/Decode.antt =====
-- src/decoder: DbcPppWrapper decodes the frames of one interface with a DBC file, DecoderRegistry picks the
-- wrapper of a frame's interface.
pub mod Laws
pub mod Loop
mod Tests
use caneo.Common.{
  ℕ, ◌%◌, ◌^◌, ◌⊎◌, inl, inr, Bool, true, false, ◌&&◌, ◌||◌, Option, none, some, List, [], ◌∷◌, ltb,
  ◌==◌, if◌then◌else◌, length,
}
use caneo.Common.Text.{Text}
use caneo.Common.OrderedMap.{nat_key, text_key, pair_key, lookup, insert}
use caneo.Common.Ieee.{Double, Ieee}
use caneo.Dbc.{
  ExtendedValueType, Multiplexer, Signal, Message, Network, Loaded, cannot_open, cannot_parse,
  network,
}
use caneo.Frame.{CanFrame, DecodedSignal, add_decoded, set_msg_name}

-- `messages_`: the network's messages by ID.
abbrev pub Decoder : Type 0
Decoder = List (ℕ × Message)

pub data Error : Type 0 where
  open_failed parse_failed no_decoder : Error

-- `emplace` keeps the entry that is there.
pub emplace : Decoder → Message → Decoder
unfolding lookup insert
emplace d m = elim (lookup m.id d) [ none ↦ insert m.id m d | some old ↦ d ]

pub emplace_all : Decoder → Network → Decoder
unfolding emplace
emplace_all d [] = d
emplace_all d (m ∷ ms) = emplace_all (emplace d m) ms

-- The constructor; `inr` is the exception that it throws.
unfoldable pub new_decoder : Loaded → Decoder ⊎ Error
unfolding emplace_all
new_decoder cannot_open = inr open_failed
new_decoder cannot_parse = inr parse_failed
new_decoder (network msgs) = inl (emplace_all [] msgs)

-- DecoderRegistry: `decoders_`.
abbrev pub Registry : Type 0
Registry = List (Text × Decoder)

-- DecoderRegistry::add_interface, with the exception that leaves it.
unfoldable pub add_interface : Registry → Text → Loaded → Registry ⊎ Error
unfolding new_decoder insert
add_interface reg iface dbc = elim (new_decoder dbc) [
  | inl d ↦ inl (insert iface d reg)
  | inr e ↦ inr e
]

module _ (fp : Ieee) where
  -- `a >= b`
  ge : Double → Double → Bool
  ge a b = fp.lt b a || fp.eq a b

  -- `y_max`: a range of [0|0] says nothing, so all values that fit are taken.
  pub upper : Signal → Double
  upper s = if fp.eq s.minimum 0 && fp.eq s.maximum 0 then fp.pow2 s.bit_size else s.maximum

  -- The raw bits read as an unsigned number.
  pub unsigned_value : Signal → ℕ → Double
  unsigned_value s raw =
      let bits = if ltb s.bit_size 64 then raw % 2 ^ 64 % 2 ^ s.bit_size else raw % 2 ^ 64 in
      fp.add (fp.mul (fp.of_uint64 bits) s.factor) s.offset

  -- A negative value of a signal whose range has none.
  pub is_misread : Signal → Double → Bool
  unfolding ge upper
  is_misread s phys = fp.lt phys s.minimum && (ge s.minimum 0 && fp.lt s.minimum (upper s))

  pub phys_of : Signal → ℕ → Double
  unfolding unsigned_value is_misread
  phys_of s raw = elim s.value_type [
    | ExtendedValueType.float ↦ fp.float_to_double (raw % 2 ^ 32)
    | ExtendedValueType.double ↦ raw % 2 ^ 64
    | ExtendedValueType.integer ↦
        let phys = s.raw_to_phys raw in if is_misread s phys then unsigned_value s raw else phys
  ]

  pub decoded_of : List ℕ → Signal → DecodedSignal
  unfolding phys_of upper
  decoded_of bytes s = record {
    name = s.name;
    value = phys_of s (s.decode bytes);
    unit = s.unit;
    min_val = s.minimum;
    max_val = upper s;
  }

  -- A multiplexed signal is in the frame if the switch has its value.
  pub is_present : Option Signal → List ℕ → Signal → Bool
  is_present mux bytes s = elim s.multiplexer [
    | Multiplexer.mux_value ↦ elim mux [ none ↦ false | some m ↦ m.decode bytes == s.switch_value ]
    | _ ↦ true
  ]

  pub decode_signals : Option Signal → List ℕ → CanFrame → List Signal → CanFrame
  unfolding is_present decoded_of add_decoded
  decode_signals mux bytes frame [] = frame
  decode_signals mux bytes frame (s ∷ ss) =
      decode_signals mux bytes
        (if is_present mux bytes s then add_decoded frame (decoded_of bytes s) else frame) ss

  -- DbcPppWrapper::decode
  unfoldable pub decode : Decoder → CanFrame → CanFrame
  unfolding lookup decode_signals set_msg_name
  decode d frame = elim (lookup frame.header.id d) [
    | none ↦ frame
    | some m ↦
        if ltb (length frame.payload) m.message_size
        then frame
        else decode_signals m.mux_signal frame.payload (set_msg_name frame m.name) m.signals
  ]

  -- DecoderRegistry::decode
  unfoldable pub decode_frame : Registry → CanFrame → CanFrame ⊎ Error
  unfolding lookup decode
  decode_frame reg frame = elim (lookup frame.header.interface reg) [
    | none ↦ inr no_decoder
    | some d ↦ inl (decode d frame)
  ]
