-- ===== src/Decode/Laws.antt =====
-- What decoding a frame adds to it: src/decoder/DbcPppWrapper.cpp and DecoderRegistry.cpp.
use caneo.Common.{
  ◌%◌, ◌^◌, Bool, false, ◌&&◌, ◌||◌, or_else_assoc, or_else, if_all, ℕ, ◌≡◌, refl, ap, ◌∙◌, ◌⊎◌,
  inl, inr, true, Option, none, some, List, [], ◌∷◌, ◌++◌, map, arith, ltb, ◌==◌, if◌then◌else◌,
  ==_iff, Bool-cases, Option-cases, length,
}
use mathlib.Core.List.{append_assoc, append-nil}
use caneo.Common.Text.{Text}
use caneo.Common.OrderedMap.{nat_key, text_key, pair_key, key_eq, lookup, insert, lookup-insert}
use caneo.Common.Ieee.{Double, Ieee}
use caneo.Dbc.{ExtendedValueType, Multiplexer, Signal, Message, Network, Loaded, network}
use caneo.Frame.{CanFrame, DecodedSignal, add_decoded, set_msg_name}
use caneo.Decode.{
  Decoder, Error, emplace, emplace_all, new_decoder, upper, unsigned_value, is_misread, ge, phys_of,
  decoded_of, is_present, decode_signals, decode, Registry, add_interface, decode_frame,
}

-- The first message of a network with an ID.
abbrev pub first_message : ℕ → Network → Option Message
first_message id [] = none
first_message id (m ∷ ms) = if m.id == id then some m else first_message id ms

lookup-emplace :
    (id : ℕ) (d : Decoder) (m : Message)
    → lookup id (emplace d m) ≡ or_else (lookup id d) (if m.id == id then some m else none)
unfolding emplace
lookup-emplace id d m = elim (Option-cases (lookup m.id d)) [
  | inl e ↦ rw (e, emplace) (ground (arith, e, lookup-insert m.id id m d, ==_iff m.id id))
  | inr (old, e) ↦ rw (e, emplace) (ground (arith, e, ==_iff m.id id))
]

pub lookup-emplace_all :
    (id : ℕ) (d : Decoder) (ms : Network)
    → lookup id (emplace_all d ms) ≡ or_else (lookup id d) (first_message id ms)
unfolding emplace_all
lookup-emplace_all id d [] = ground arith
lookup-emplace_all id d (m ∷ ms) =
    lookup-emplace_all id (emplace d m) ms
    ∙ ap (λ o. or_else o (first_message id ms)) (lookup-emplace id d m)
    ∙ or_else_assoc (lookup id d) (if m.id == id then some m else none) (first_message id ms)
    ∙ ground arith

module _ (fp : Ieee) where
  -- A multiplexed signal is in the frames in which the multiplexer switch has the signal's value, and in none where
  -- the message has no switch; any other signal is in all frames.
  abbrev pub is_in : Option Signal → List ℕ → Multiplexer → ℕ → Bool
  is_in (some m) bytes Multiplexer.mux_value v = m.decode bytes == v
  is_in none bytes Multiplexer.mux_value v = false
  is_in mux bytes Multiplexer.mux_switch v = true
  is_in mux bytes Multiplexer.no_mux v = true

  -- The signals of a message that are in a frame, in the network's order.
  abbrev pub present : Option Signal → List ℕ → List Signal → List Signal
  present mux bytes [] = []
  present mux bytes (s ∷ ss) =
      let rest = present mux bytes ss in
      if is_in mux bytes s.multiplexer s.switch_value then s ∷ rest else rest

  -- The top of a signal's range, which [0|0] leaves open.
  abbrev pub range_top : Signal → Double
  range_top s = if fp.eq s.minimum 0 && fp.eq s.maximum 0 then fp.pow2 s.bit_size else s.maximum

  -- The raw bits without a sign, scaled.
  abbrev pub without_sign : Signal → ℕ → Double
  without_sign s raw =
      fp.add
        (fp.mul
          (fp.of_uint64 (if ltb s.bit_size 64 then raw % 2 ^ 64 % 2 ^ s.bit_size else raw % 2 ^ 64))
          s.factor)
        s.offset

  -- A range that has no number below 0, and is not empty.
  abbrev pub has_no_sign : Signal → Bool
  has_no_sign s = (fp.lt 0 s.minimum || fp.eq s.minimum 0) && fp.lt s.minimum (range_top s)

  -- The number that raw bits stand for, by the value type. An integer below a range that has no number below 0 is
  -- read again without its sign.
  abbrev pub reading : Signal → ExtendedValueType → ℕ → Double
  reading s ExtendedValueType.float raw = fp.float_to_double (raw % 2 ^ 32)
  reading s ExtendedValueType.double raw = raw % 2 ^ 64
  reading s ExtendedValueType.integer raw =
      if fp.lt (s.raw_to_phys raw) s.minimum && has_no_sign s
      then without_sign s raw
      else s.raw_to_phys raw

  -- What is shown of a signal.
  abbrev pub described : List ℕ → Signal → DecodedSignal
  described bytes s = record {
    name = s.name;
    value = reading s s.value_type (s.decode bytes);
    unit = s.unit;
    min_val = s.minimum;
    max_val = range_top s;
  }

  reading_lem : (s : Signal) (raw : ℕ) → phys_of fp s raw ≡ reading s s.value_type raw
  unfolding phys_of is_misread ge upper unsigned_value
  reading_lem s raw = go s.value_type refl
    where
      go : (t : ExtendedValueType) → s.value_type ≡ t → phys_of fp s raw ≡ reading s t raw
      go ExtendedValueType.float e = rw e refl
      go ExtendedValueType.double e = rw e refl
      go ExtendedValueType.integer e = rw e refl

  described_lem : (bytes : List ℕ) (s : Signal) → decoded_of fp bytes s ≡ described bytes s
  unfolding decoded_of upper
  described_lem bytes s = rw (reading_lem s (s.decode bytes)) refl

  is_in_lem :
      (mux : Option Signal) (bytes : List ℕ) (s : Signal)
      → is_present fp mux bytes s ≡ is_in mux bytes s.multiplexer s.switch_value
  unfolding is_present
  is_in_lem mux bytes s = ground arith

  decode_signals_lem :
      (mux : Option Signal) (bytes : List ℕ) (f : CanFrame) (ss : List Signal)
      → decode_signals fp mux bytes f ss
        ≡ record f { decoded = f.decoded ++ map (described bytes) (present mux bytes ss) }
  unfolding decode_signals add_decoded
  decode_signals_lem mux bytes f [] = simp append-nil
  decode_signals_lem mux bytes f (s ∷ ss) =
      rw (is_in_lem mux bytes s, described_lem bytes s)
        (elim (Bool-cases (is_in mux bytes s.multiplexer s.switch_value)) [
          | inl e ↦ rw e (
              decode_signals_lem mux bytes (add_decoded f (described bytes s)) ss
              ∙ simp append_assoc)
          | inr e ↦ rw e (decode_signals_lem mux bytes f ss)
        ])

  -- A frame with what its message says of it, unless it is too short.
  abbrev pub shown : Option Message → CanFrame → CanFrame
  shown none f = f
  shown (some m) f = if ltb (length f.payload) m.message_size then f else record f {
    msg_name = m.name;
    decoded = f.decoded ++ map (described f.payload) (present m.mux_signal f.payload m.signals);
  }

  decode_found :
      (d : Decoder) (f : CanFrame) (o : Option Message)
      → lookup f.header.id d ≡ o
      → decode fp d f ≡ shown o f
  unfolding decode set_msg_name
  decode_found d f none h = rw (h, decode) refl
  decode_found d f (some m) h =
      rw (h, decode)
        (if_all (λ r. r ≡ shown (some m) f) (ltb (length f.payload) m.message_size) (λ k. rw k refl)
          (λ k. rw k (decode_signals_lem m.mux_signal f.payload (set_msg_name f m.name) m.signals)))

  -- A decoder takes the first message of its network with the frame's ID. It gives the frame that message's
  -- name and, in the network's order, the numbers that the bits of its signals stand for, by their value types, an
  -- integer below a range of no negative numbers read again without its sign, a multiplexed signal only where the
  -- switch has its value; a frame that is shorter than the message, or with an ID
  -- that the network does not have, stays as it is.
  pub decode_lem :
      (msgs : Network) (d : Decoder) (f : CanFrame)
      → new_decoder (network msgs) ≡ inl d
      → decode fp d f ≡ shown (first_message f.header.id msgs) f
  unfolding new_decoder
  decode_lem msgs d f e =
      rw (← inl_inj e)
        (decode_found (emplace_all [] msgs) f _ (lookup-emplace_all f.header.id [] msgs))
    where
      inl_inj : {a b : Decoder} → ◌≡◌ {A = Decoder ⊎ Error} (inl a) (inl b) → a ≡ b
      inl_inj h = cc

  -- What a registry makes of the exception or the decoder for a DBC file.
  abbrev pub decoded_by : Decoder ⊎ Error → CanFrame → CanFrame ⊎ Error → CanFrame ⊎ Error
  decoded_by (inl d) f other = inl (decode fp d f)
  decoded_by (inr e) f other = other

  decode_frame-insert :
      (reg : Registry) (iface : Text) (d : Decoder) (f : CanFrame)
      → decode_frame fp (insert iface d reg) f
        ≡ (if key_eq f.header.interface iface then inl (decode fp d f) else decode_frame fp reg f)
  unfolding decode_frame
  decode_frame-insert reg iface d f = elim (Bool-cases (key_eq f.header.interface iface)) [
    | inl e ↦ ground (arith, e, lookup-insert iface f.header.interface d reg)
    | inr e ↦ ground (arith, e, lookup-insert iface f.header.interface d reg)
  ]

  after_load :
      (reg reg' : Registry) (iface : Text) (f : CanFrame) (r : Decoder ⊎ Error)
      → ◌≡◌ {A = Registry ⊎ Error}
          (elim r [ inl d ↦ inl (insert iface d reg) | inr e ↦ inr e ])
          (inl reg')
      → decode_frame fp reg' f ≡ (
          if key_eq f.header.interface iface
          then decoded_by r f (decode_frame fp reg f)
          else decode_frame fp reg f)
  after_load reg reg' iface f (inl d) h =
      let e : insert iface d reg ≡ reg' = cc in rw (← e) (decode_frame-insert reg iface d f)
  after_load reg reg' iface f (inr x) h = cc

  -- After DecoderRegistry::add_interface the frames of its interface are decoded with its file, and those of
  -- every other interface as before.
  pub decode_frame-add_interface :
      (reg reg' : Registry) (iface : Text) (dbc : Loaded) (f : CanFrame)
      → add_interface reg iface dbc ≡ inl reg'
      → decode_frame fp reg' f ≡ (
          if key_eq f.header.interface iface
          then decoded_by (new_decoder dbc) f (decode_frame fp reg f)
          else decode_frame fp reg f)
  unfolding add_interface decode_frame
  decode_frame-add_interface reg reg' iface dbc f h =
      after_load reg reg' iface f (new_decoder dbc) h

  -- Where an integer signal has no range in its file (0 and 0) and its physical value is negative, what is shown is
  -- the number that its bits are without a sign.
  pub phys_of-no_range :
      (s : Signal) (raw : ℕ)
      → s.value_type ≡ ExtendedValueType.integer
      → s.minimum ≡ 0
      → s.maximum ≡ 0
      → fp.eq 0 0 ≡ true
      → fp.lt 0 (fp.pow2 s.bit_size) ≡ true
      → fp.lt (s.raw_to_phys raw) 0 ≡ true
      → phys_of fp s raw ≡ unsigned_value fp s raw
  unfolding phys_of is_misread ge upper
  phys_of-no_range s raw t lo hi e up neg = ground (arith, t, lo, hi, e, up, neg)
