-- ===== src/Logs.antt =====
-- src/logger/LogController and src/modes/log_frame.hpp: logs that are started and stopped while frames
-- arrive. Each method holds the mutex while it works.
pub mod Sessions
mod Tests
use caneo.Common.Ieee.{Double, Ieee}
use caneo.Common.{ℕ, ◌-◌, Bool, true, false, Option, none, some, List, [], if◌then◌else◌}
use caneo.Common.Text.{Text}
use caneo.Common.Int.{ℤ, pos, ◌-ℤ◌}
use caneo.Common.OrderedMap.{nat_key, text_key, pair_key, lookup, insert}
use caneo.Frame.{CanFrame}
use caneo.Proto.{Descriptor, Protobuf}
use caneo.Mcap.{Call, McapLogger, new_logger, log, log_scalar_at}

-- `FrameTimestampMap`.
abbrev pub Times : Type 0
Times = List ((Text × ℕ) × ℤ)

pub record LogController : Type 0 where
  pub logger : Option McapLogger
  pub current_path : Text
  pub log_start_time : ℤ
  pub last_ts : Times

unfoldable pub new_controller : LogController
new_controller = record { logger = none; current_path = []; log_start_time = pos 0; last_ts = [] }

-- LogController::start. `path` is what make_log_path returns, `opened` whether the file could be opened;
-- the second result is whether the exception of McapLogger's constructor goes on to the caller.
unfoldable pub start : LogController → Text → Bool → ℤ → LogController × Bool
unfolding new_logger
start c path opened now = elim c.logger [
  | some lg ↦ (c, false)
  | none ↦
      if opened
      then (record c { logger = some new_logger; current_path = path; log_start_time = now }, false)
      else (record c { current_path = path }, true)
]

unfoldable pub stop : LogController → LogController
stop c = record { logger = none; current_path = []; log_start_time = pos 0; last_ts = [] }

unfoldable pub is_logging : LogController → Bool
is_logging c = elim c.logger [ none ↦ false | some lg ↦ true ]

pub elapsed_seconds : Ieee → LogController → ℤ → Double
elapsed_seconds fp c now = elim c.logger [
  | none ↦ 0
  | some lg ↦ fp.seconds (now -ℤ c.log_start_time)
]

key_of : CanFrame → Text × ℕ
key_of frame = (frame.header.interface, frame.header.id)

-- The time since the last frame of the same interface and ID, in milliseconds.
pub ratio_ms : Ieee → Times → CanFrame → Option Double
unfolding lookup key_of
ratio_ms fp times frame = elim (lookup (key_of frame) times) [
  | none ↦ none
  | some before ↦ some (fp.millis (frame.timestamp -ℤ before))
]

keep_time : Times → CanFrame → Times
unfolding insert key_of
keep_time times frame = insert (key_of frame) frame.timestamp times

-- `serialize` and `describe` are ProtoLogRegistry::serialize and the descriptor that the registry has for
-- the interface and the ID of a frame.
module _ (fp : Ieee) (pb : Protobuf) (new_id : List Call → ℕ) (serialize : CanFrame → Text)
    (describe : CanFrame → Option Descriptor) where
  -- log_frame of src/modes/log_frame.hpp.
  unfoldable pub log_frame : CanFrame → Option McapLogger → Times → Option McapLogger × Times
  unfolding ratio_ms keep_time log
  log_frame frame none times = (none, times)
  log_frame frame (some lg) times = (
    some (log pb new_id lg frame (describe frame) (serialize frame) (ratio_ms fp times frame)),
    keep_time times frame,
  )

  unfoldable pub log_can_frame : LogController → CanFrame → LogController
  unfolding ratio_ms keep_time log
  log_can_frame c frame = elim c.logger [
    | none ↦ c
    | some lg ↦ record c {
      logger =
          some (
            log pb new_id lg frame (describe frame) (serialize frame)
              (ratio_ms fp c.last_ts frame));
      last_ts = keep_time c.last_ts frame;
    }
  ]

module _ (pb : Protobuf) (new_id : List Call → ℕ) where
  -- LogController::log and log_scalar pass on to the logger, if there is one.
  unfoldable pub forward :
      LogController → CanFrame → Option Descriptor → Text → Option Double → LogController
  unfolding log
  forward c frame desc serialized ratio = elim c.logger [
    | none ↦ c
    | some lg ↦ record c { logger = some (log pb new_id lg frame desc serialized ratio) }
  ]

  unfoldable pub log_scalar : LogController → Text → Double → ℕ → LogController
  unfolding log_scalar_at
  log_scalar c topic value now_ns = elim c.logger [
    | none ↦ c
    | some lg ↦ record c { logger = some (log_scalar_at pb new_id lg topic value now_ns) }
  ]
