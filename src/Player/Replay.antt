-- ===== src/Player/Replay.antt =====
-- The raw frames of a log file on their way back to a bus: src/logger/McapLogger.cpp writes them,
-- src/logger/McapReader.cpp plays them.
use caneo.Common.{
  ℕ, ◌%◌, ◌^◌, ◌≡◌, refl, ap, ◌∙◌, Bool, true, false, Option, some, List, [], ◌∷◌, ◌++◌, map, arith,
  ltb, ◌==◌, any, all,
}
use caneo.Common.Text.{Text, codes}
use caneo.Common.Int.{ℤ}
use caneo.Common.OrderedMap.{nat_key, text_key, pair_key, lookup}
use caneo.Frame.{CanFrame}
use caneo.Proto.{Descriptor, uint32, uint32s, Fields, Protobuf, ProtobufReader}
use caneo.Topic.{base_topic, classify_topic, raw_suffix}
use caneo.Topic.RoundTrip.{classify_topic-base_topic}
use caneo.Mcap.{Call, serialize_raw}
use caneo.Player.{View, sent, deliver, raw_event, send_of, event_of, find_field}

-- The fields of a raw frame.
abbrev pub raw_fields : CanFrame → Fields
raw_fields frame =
    (codes "can_id", uint32 frame.header.id) ∷ (codes "payload", uint32s frame.payload) ∷ []

abbrev pub is_bytes : List ℕ → Bool
is_bytes bytes = all (λ b. ltb b (2 ^ 8)) bytes

bytes_kept : (bytes : List ℕ) → is_bytes bytes ≡ true → map (λ b. b % 2 ^ 8) bytes ≡ bytes
bytes_kept [] h = refl
bytes_kept (b ∷ bs) h =
    let e : b % 2 ^ 8 ≡ b = ground (arith, h) in rw (e, bytes_kept bs (ground (arith, h))) refl

raw_event-raw_fields :
    (frame : CanFrame)
    → is_bytes frame.payload ≡ true
    → raw_event frame.header.interface (raw_fields frame)
      ≡ sent frame.header.interface frame.header.id frame.payload
unfolding raw_event find_field send_of
raw_event-raw_fields frame h =
    ap (λ l. sent frame.header.interface frame.header.id l) (bytes_kept frame.payload h)

-- Playing the raw message that the logger wrote for a frame sends the frame's ID and bytes on its interface, if
-- the name of the interface has no slash, the payload is bytes, the message's schema is known and the protobuf
-- library parses what it has serialized.
pub replay_raw :
    (pb : Protobuf) (new_id : List Call → ℕ) (rd : ProtobufReader) (hash : Text → ℕ)
    (on_frame : Bool) (schemas : List (ℕ × Descriptor)) (frame : CanFrame) (desc : Option Text)
    (d e : Descriptor) (view : View) (wall : ℤ)
    → any (λ c. c == b'/') frame.header.interface ≡ false
    → is_bytes frame.payload ≡ true
    → lookup view.schema_id schemas ≡ some e
    → view.content ≡ serialize_raw pb new_id d frame
    → rd.parse e (pb.serialize d (raw_fields frame)) ≡ some (raw_fields frame)
    → event_of rd hash on_frame true schemas
        (classify_topic (base_topic frame.header.interface desc frame.header.id ++ raw_suffix))
        view
        wall
      ≡ sent frame.header.interface frame.header.id frame.payload
unfolding event_of deliver serialize_raw
replay_raw pb new_id rd hash on_frame schemas frame desc d e view wall s b k w p =
    let q : rd.parse e view.content ≡ some (raw_fields frame) = ap (λ c. rd.parse e c) w ∙ p in
    ap (λ info. event_of rd hash on_frame true schemas info view wall)
      (classify_topic-base_topic frame.header.interface desc frame.header.id s).1
    ∙ rw (k, event_of, q) (raw_event-raw_fields frame b)
