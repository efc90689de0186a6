-- ===== src/Player.antt =====
-- McapReader::play of src/logger/McapReader.cpp: a log file is played at its own pace, under a
-- PlaybackController that other threads change meanwhile.
pub mod Loop
pub mod Pacing
pub mod Replay
pub mod Laws
mod Tests
use caneo.Common.{
  ℕ, ◌+◌, ◌-◌, ◌%◌, ◌^◌, Bool, true, false, ◌&&◌, Option, none, some, List, [], ◌∷◌, map, ltb,
  if◌then◌else◌,
}
use caneo.Common.Text.{Text, codes, text_eq}
use caneo.Common.Int.{ℤ, pos, negsuc, ◌+ℤ◌}
use caneo.Common.OrderedMap.{nat_key, text_key, pair_key, lookup, insert}
use caneo.Frame.{CanFrame, DecodedSignal, new_frame, set_msg_name, add_decoded}
use caneo.Proto.{Descriptor, Value, uint32, uint32s, double, Fields, ProtobufReader}
use caneo.Topic.{data_kind, raw_kind, other_kind, ChannelInfo, derive_can_id}
use caneo.Playback.{Playback, any_running, is_running, is_message_enabled}

-- The schemas, channels and messages that the MCAP library gives.
pub record Schema : Type 0 where
  pub encoding : Text
  pub name : Text
  pub content : Text

pub record View : Type 0 where
  pub channel_id : ℕ
  pub schema_id : ℕ
  pub log_time : ℕ
  pub content : Text

-- What the thread of play meets while it works on one message: the steady clock and the system clock, and, if
-- there is a controller, its state at each access: at any_running; at is_stopped behind
-- wait_for_any_running; at the end of sleep_until; at is_running; at is_message_enabled.
pub record Seen : Type 0 where
  pub at_check : Playback
  pub at_resume : Playback
  pub at_wake : Playback
  pub at_interface : Playback
  pub at_message : Playback

pub record Moment : Type 0 where
  pub steady : ℤ
  pub wall : ℤ
  pub seen : Option Seen

-- `started`, `t0_ns` and `start_time`.
pub record Pace : Type 0 where
  pub started : Bool
  pub t0_ns : ℕ
  pub start_time : ℤ

abbrev pub no_pace : Pace
no_pace = record { started = false; t0_ns = 0; start_time = pos 0 }

-- What comes of a message: nothing, a call of on_frame or on_send, or the end of the program, where the
-- protobuf library is asked for a field as another type than its own.
pub data Event : Type 0 where
  skipped aborted : Event
  shown : CanFrame → Event
  sent : Text → ℕ → List ℕ → Event

-- A message that is waited for, until the time of the steady clock.
pub record Played : Type 0 where
  pub target : ℤ
  pub event : Event

-- The cast of a `uint64_t` to the count of a duration.
abbrev pub as_int64 : ℕ → ℤ
as_int64 n = if ltb n (2 ^ 63) then pos n else negsuc (2 ^ 64 - 1 - n)

-- The pause of all interfaces; nothing stands for `break`.
pub check_pause : Option Seen → Pace → Option Pace
unfolding any_running
check_pause none pace = some pace
check_pause (some s) pace =
    if any_running s.at_check
    then some pace
    else if s.at_resume.stopped
    then none
    else some (record pace { started = false })

pub calibrate : Pace → ℕ → ℤ → Pace
calibrate pace log_time now =
    if pace.started then pace else record { started = true; t0_ns = log_time; start_time = now }

-- A count of nanoseconds in 64 bits. An overflow, which C++ leaves undefined, wraps around.
abbrev pub wrap_int64 : ℤ → ℤ
wrap_int64 (pos n) = as_int64 (n % 2 ^ 64)
wrap_int64 (negsuc n) = as_int64 (2 ^ 64 - 1 - n % 2 ^ 64)

pub target_of : Pace → ℕ → ℤ
target_of pace log_time =
    wrap_int64 (pace.start_time +ℤ as_int64 ((log_time + (2 ^ 64 - pace.t0_ns)) % 2 ^ 64))

-- What sleep_until returns.
pub stopped_at : Option Seen → Bool
stopped_at none = false
stopped_at (some s) = s.at_wake.stopped

pub is_let_through : Option Seen → ChannelInfo → Bool
unfolding is_running is_message_enabled
is_let_through none info = true
is_let_through (some s) info =
    is_running s.at_interface info.iface && is_message_enabled s.at_message info.iface info.msg_name

pub doubles : Fields → List DecodedSignal
doubles [] = []
doubles ((name, double x) ∷ rest) =
    record { name = name; value = x; unit = []; min_val = 0; max_val = 0 } ∷ doubles rest
doubles (_ ∷ rest) = doubles rest

pub find_field : Text → Fields → Option Value
find_field name [] = none
find_field name ((n, v) ∷ rest) = if text_eq n name then some v else find_field name rest

pub add_signals : CanFrame → List DecodedSignal → CanFrame
unfolding add_decoded
add_signals frame [] = frame
add_signals frame (s ∷ ss) = add_signals (add_decoded frame s) ss

-- The frame for on_frame.
pub frame_from : (Text → ℕ) → ChannelInfo → Fields → ℤ → CanFrame
unfolding new_frame set_msg_name derive_can_id add_signals doubles
frame_from hash info fields wall =
    add_signals
      (set_msg_name
        (new_frame
          (record { id = derive_can_id hash info.msg_name; interface = info.iface; dlc = 0 }) []
          wall)
        info.msg_name)
      (doubles fields)

send_of : Text → Value → Value → Event
send_of iface (uint32 id) (uint32s bytes) = sent iface id (map (λ b. b % 2 ^ 8) bytes)
send_of iface _ _ = aborted

-- The call of on_send.
pub raw_event : Text → Fields → Event
unfolding find_field send_of
raw_event iface fields = elim (find_field (codes "can_id") fields) [
  | none ↦ skipped
  | some id ↦ elim (find_field (codes "payload") fields) [
    | none ↦ skipped
    | some bytes ↦ send_of iface id bytes
  ]
]

module _ (rd : ProtobufReader) where
  pub load_schemas : List (ℕ × Schema) → List (ℕ × Descriptor)
  unfolding insert
  load_schemas [] = []
  load_schemas ((id, s) ∷ rest) =
      let more = load_schemas rest in
      if text_eq s.encoding (codes "protobuf")
      then elim (rd.find_type s.name s.content) [ none ↦ more | some d ↦ insert id d more ]
      else more

  module _ (hash : Text → ℕ) (on_frame on_send : Bool) where
    -- A message behind the filters; on_frame and on_send say which of the functions are set.
    pub deliver : ChannelInfo → Fields → ℤ → Event
    unfolding frame_from raw_event
    deliver info fields wall = elim info.kind [
      | data_kind ↦ if on_frame then shown (frame_from hash info fields wall) else skipped
      | raw_kind ↦ if on_send then raw_event info.iface fields else skipped
      | other_kind ↦ skipped
    ]

    -- The message of a channel whose schema is known and whose bytes can be parsed.
    pub event_of : List (ℕ × Descriptor) → ChannelInfo → View → ℤ → Event
    unfolding lookup deliver
    event_of schemas info view wall = elim (lookup view.schema_id schemas) [
      | none ↦ skipped
      | some d ↦ elim (rd.parse d view.content) [
        | none ↦ skipped
        | some fields ↦ deliver info fields wall
      ]
    ]

    -- One turn of the loop, for a message of a channel that is known; nothing stands for `break`.
    pub turn : List (ℕ × Descriptor) → ChannelInfo → View → Moment → Pace → Option (Pace × Played)
    unfolding check_pause calibrate target_of stopped_at is_let_through event_of
    turn schemas info view m pace = elim (check_pause m.seen pace) [
      | none ↦ none
      | some p ↦
          let q = calibrate p view.log_time m.steady in
          if stopped_at m.seen
          then none
          else some (
            q,
            record {
              target = target_of q view.log_time;
              event =
                  if is_let_through m.seen info then event_of schemas info view m.wall else skipped;
            },
          )
    ]
