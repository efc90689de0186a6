-- ===== src/Decode/Loop.antt =====
-- A message that src/send/SendModel.cpp encodes, as src/decoder/DbcPppWrapper.cpp decodes it.
use caneo.Common.{
  if_all, ◌%◌, ◌^◌, ◌<◌, false, ℕ, ◌≤◌, ◌≡◌, refl, ap, ◌∙◌, inl, Bool, true, false, Option, some,
  List, [], ◌∷◌, map, arith, ltb, length, all, All,
}
use caneo.Common.OrderedMap.{nat_key, text_key, pair_key}
use mathlib.Core.List.{Perm}
use mathlib.Core.List.Perm
use caneo.Common.Ieee.{Ieee}
use caneo.Dbc.{ExtendedValueType, Multiplexer, Signal, Message, Network, network}
use caneo.Frame.{CanFrame, DecodedSignal}
use caneo.Send.{SendSignal, SendMessage, raw_of, encode_message}
use caneo.Send.Encoding.{KeepsLength, IsLaidOut, length-encode_message, decode-encode_message}
use caneo.Decode.{Decoder, new_decoder, decode}
use caneo.Decode.Laws.{first_message, present, range_top, reading, described, shown, decode_lem}

abbrev pub is_plain : Multiplexer → Bool
is_plain Multiplexer.mux_value = false
is_plain _ = true

-- What a receiver is to see of a signal that is sent: the value that it is given.
abbrev pub sent_value : Ieee → SendSignal → DecodedSignal
sent_value fp s = record {
  name = s.sig.name;
  value = s.value;
  unit = s.sig.unit;
  min_val = s.sig.minimum;
  max_val = range_top fp s.sig;
}

-- A value that its type can hold: the number is a float, is 64 bits, or has an exact raw value and is not below the
-- signal's range.
abbrev pub Fits : Ieee → SendSignal → ExtendedValueType → Type 0
Fits fp s ExtendedValueType.float =
    fp.float_to_double (fp.double_to_float s.value % 2 ^ 32) ≡ s.value
Fits fp s ExtendedValueType.double = s.value < 2 ^ 64
Fits fp s ExtendedValueType.integer =
    (s.sig.raw_to_phys (s.sig.phys_to_raw s.value) ≡ s.value)
    × (fp.lt s.value s.sig.minimum ≡ false)

abbrev pub IsExact : Ieee → SendSignal → Type 0
IsExact fp s = Fits fp s s.sig.value_type

reading-raw_of :
    (fp : Ieee) (s : SendSignal) (t : ExtendedValueType)
    → s.sig.value_type ≡ t
    → Fits fp s t
    → reading fp s.sig t (raw_of fp s) ≡ s.value
unfolding raw_of
reading-raw_of fp s ExtendedValueType.float e h = rw (e, raw_of) h
reading-raw_of fp s ExtendedValueType.double e h = rw (e, raw_of) (omega (arith, h))
reading-raw_of fp s ExtendedValueType.integer e h = rw (e, raw_of, h.0, h.1) refl

pub All-KeepsLength :
    (fp : Ieee) (n : ℕ) (ss : List SendSignal) → IsLaidOut fp n ss → All KeepsLength ss
All-KeepsLength fp n [] h = tt
All-KeepsLength fp n (s ∷ ss) h = (h.1, All-KeepsLength fp n ss h.3)

present-plain :
    (fp : Ieee) (mux : Option Signal) (bytes : List ℕ) (ss : List Signal)
    → all (λ s. is_plain s.multiplexer) ss ≡ true
    → present fp mux bytes ss ≡ ss
present-plain fp mux bytes [] h = refl
present-plain fp mux bytes (s ∷ ss) h = ground (arith, h, present-plain fp mux bytes ss)

map-sent_value :
    (fp : Ieee) (bytes : List ℕ) (ss : List SendSignal)
    → All (λ s. s.sig.decode bytes ≡ raw_of fp s) ss
    → All (IsExact fp) ss
    → map (described fp bytes) (map (λ (s : SendSignal). s.sig) ss) ≡ map (sent_value fp) ss
map-sent_value fp bytes [] h x = refl
map-sent_value fp bytes (s ∷ ss) h x =
    rw (map-sent_value fp bytes ss h.1 x.1, h.0, reading-raw_of fp s s.sig.value_type refl x.0) refl

decoded-shown :
    (fp : Ieee) (m : Message) (f : CanFrame)
    → m.message_size ≤ length f.payload
    → all (λ s. is_plain s.multiplexer) m.signals ≡ true
    → f.decoded ≡ []
    → (shown fp (some m) f).decoded ≡ map (described fp f.payload) m.signals
decoded-shown fp m f long plain new =
    if_all (λ (r : CanFrame). r.decoded ≡ map (described fp f.payload) m.signals)
      (ltb (length f.payload) m.message_size) (λ h. absurd (ground (arith, h, long)))
      (λ h. rw (new, present-plain fp m.mux_signal f.payload m.signals plain) refl)

-- A frame with the bytes that SendModel encodes for a message is decoded into the values that the message had, each
-- signal once: if its type can hold each value, none is below its signal's range, the message has no multiplexed
-- signal, its signals do not overlap, each reads back what it writes, and the decoder's network has this message for
-- the frame's ID.
pub decode-encode :
    (fp : Ieee) (msgs : Network) (d : Decoder) (m : Message) (sm : SendMessage) (f : CanFrame)
    → new_decoder (network msgs) ≡ inl d
    → first_message f.header.id msgs ≡ some m
    → Perm (map (λ (s : SendSignal). s.sig) sm.signals) m.signals
    → m.message_size ≡ sm.dlc
    → all (λ s. is_plain s.multiplexer) m.signals ≡ true
    → IsLaidOut fp sm.dlc sm.signals
    → All (IsExact fp) sm.signals
    → f.payload ≡ encode_message fp sm
    → f.decoded ≡ []
    → Perm (decode fp d f).decoded (map (sent_value fp) sm.signals)
decode-encode fp msgs d m sm f load found same size plain laid exact bytes new =
    let n = length-encode_message fp sm (All-KeepsLength fp sm.dlc sm.signals laid) in
    let e : (decode fp d f).decoded ≡ map (described fp f.payload) m.signals =
      ap (λ (r : CanFrame). r.decoded) (decode_lem fp msgs d f load)
      ∙ ap (λ o. (shown fp o f).decoded) found
      ∙ decoded-shown fp m f (rw bytes (omega (arith, n, size))) plain new in
    let p = Perm.map (described fp f.payload) same in
    rw
      (
        e,
        ← map-sent_value fp f.payload sm.signals (rw bytes (decode-encode_message fp sm laid))
            exact,
      )
      (Perm.symm p)
