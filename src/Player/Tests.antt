-- ===== src/Player/Tests.antt =====
-- A short log file that is played, and the theorems at it.
use caneo.Common.{any, ◌⊎◌, ℕ, ◌≡◌, refl, true, false, none, some, List, [], ◌∷◌, ◌++◌, map, arith}
use caneo.Common.Text.{codes}
use caneo.Common.Int.{ℤ, pos}
use caneo.Common.OrderedMap.{nat_key, text_key, pair_key}
use caneo.Frame.{CanFrame}
use caneo.Proto.{Descriptor, uint32, uint32s, Fields, Protobuf, ProtobufReader}
use caneo.Topic.{ChannelInfo, raw_kind, base_topic, classify_topic, raw_suffix}
use caneo.Playback.{Playback}
use caneo.Player.{View, Moment, no_pace, Event, skipped, sent, event_of}
use caneo.Player.Loop.{play_from}
use caneo.Player.Laws.{known, outcome, stops, events_in_order}
use caneo.Player.Pacing.{targets, due, paced}
use caneo.Player.Replay.{replay_raw}

abbrev fields : Fields
fields = (codes "can_id", uint32 291) ∷ (codes "payload", uint32s (7 ∷ 8 ∷ [])) ∷ []

-- A library for which every text is the same raw frame.
abbrev reader : ProtobufReader
reader = record { find_type = λ name content. none; parse = λ d content. some fields }

abbrev writer : Protobuf
writer = record { build = λ file. none; serialize = λ d fs. codes "raw" }

abbrev raw_type : Descriptor
raw_type = record { name = codes "RawFrame"; full_name = codes "RawFrame"; file = [] }

abbrev channels : List (ℕ × ChannelInfo)
channels =
    (1, record { kind = raw_kind; iface = codes "can0"; msg_name = codes "A" })
    ∷ (2, record { kind = raw_kind; iface = codes "can1"; msg_name = codes "B" })
    ∷ []

abbrev schemas : List (ℕ × Descriptor)
schemas = (5, raw_type) ∷ []

abbrev view : ℕ → ℕ → View
view channel time = record {
  channel_id = channel;
  schema_id = 5;
  log_time = time;
  content = codes "raw";
}

-- can0 runs and can1 does not.
abbrev half : Playback
half = record {
  states = (codes "can0", true) ∷ (codes "can1", false) ∷ [];
  stopped = false;
  messages = [];
}

abbrev meets : Playback → ℤ → Moment
meets first now = record {
  steady = now;
  wall = pos 0;
  seen = some (record {
    at_check = first;
    at_resume = half;
    at_wake = half;
    at_interface = half;
    at_message = half;
  });
}

abbrev paused : Playback
paused = record {
  states = (codes "can0", false) ∷ (codes "can1", false) ∷ [];
  stopped = false;
  messages = [];
}

abbrev later_ones : List (View × Moment)
later_ones =
    (view 2 120, meets half (pos 900))
    ∷ (view 9 125, meets half (pos 910))
    ∷ (view 1 150, meets half (pos 920))
    ∷ []

abbrev file : List (View × Moment)
file = (view 1 100, meets paused (pos 800)) ∷ later_ones

played_events :
    map (λ p. p.event) (play_from reader (λ s. 0) true true channels schemas no_pace file)
    ≡ sent (codes "can0") 291 (7 ∷ 8 ∷ []) ∷ skipped ∷ sent (codes "can0") 291 (7 ∷ 8 ∷ []) ∷ []
unfolding play_from
played_events = refl

events_in_order_example :
    (rest : List Event) × (map (outcome reader (λ s. 0) true true schemas) (known channels file)
      ≡ map (λ p. p.event) (play_from reader (λ s. 0) true true channels schemas no_pace file)
        ++ rest)
    × ((rest ≡ []) ⊎ (any (λ x. stops x.2.seen) (known channels file) ≡ true))
events_in_order_example = events_in_order reader (λ s. 0) true true schemas channels no_pace file

paced_example :
    targets reader (λ s. 0) true true schemas channels no_pace file
    ≡ pos 800 ∷ due reader (λ s. 0) true true schemas 100 (pos 800) (known channels later_ones)
unfolding caneo.Common.OrderedMap.lookup caneo.Playback.any_running
paced_example =
    paced reader (λ s. 0) true true schemas channels no_pace
      (record { kind = raw_kind; iface = codes "can0"; msg_name = codes "A" }) (view 1 100)
      (meets paused (pos 800)) later_ones refl refl (omega arith) refl refl

abbrev frame : CanFrame
frame = record {
  header = record { id = 291; interface = codes "can0"; dlc = 2 };
  payload = 7 ∷ 8 ∷ [];
  decoded = [];
  msg_name = [];
  timestamp = pos 1000;
}

replay_raw_example :
    event_of reader
      (λ s. 0)
      true
      true
      schemas
      (classify_topic (base_topic (codes "can0") none 291 ++ raw_suffix))
      (view 1 100)
      (pos 0)
    ≡ sent (codes "can0") 291 (7 ∷ 8 ∷ [])
unfolding caneo.Common.OrderedMap.lookup caneo.Mcap.serialize_raw
replay_raw_example =
    replay_raw writer (λ calls. 0) reader (λ s. 0) true schemas frame none raw_type raw_type
      (view 1 100) (pos 0) refl refl refl refl refl
