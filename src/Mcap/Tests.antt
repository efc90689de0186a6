-- ===== src/Mcap/Tests.antt =====
-- A frame and a scalar in a new log file.
use caneo.Common.{◌≡◌, true, none, some, [], ◌∷◌, length}
use caneo.Common.Text.{codes}
use caneo.Common.Int.{pos}
use caneo.Frame.{CanFrame}
use caneo.Proto.{Protobuf}
use caneo.Mcap.{new_logger}
use caneo.Mcap.Registered.{is_declared}
use caneo.Mcap.Declared.{frame_entry, scalar_entry, log_all, log_all-declared}

abbrev frame : CanFrame
frame = record {
  header = record { id = 26; interface = codes "can0"; dlc = 1 };
  payload = 7 ∷ [];
  decoded = [];
  msg_name = [];
  timestamp = pos 1000;
}

-- A library in which every file builds, and which serializes to the names of the fields.
abbrev library : Protobuf
library = record {
  build = λ file. some (record { name = file; full_name = file; file = [] });
  serialize = λ d fields. d.name;
}

log_all-declared_example :
    is_declared
      (log_all library length new_logger (
        frame_entry frame none [] none
        ∷ scalar_entry (codes "model") 5 9
        ∷ frame_entry frame none [] (some 3)
        ∷ [])).calls
    ≡ true
log_all-declared_example = log_all-declared library length (
    frame_entry frame none [] none
    ∷ scalar_entry (codes "model") 5 9
    ∷ frame_entry frame none [] (some 3)
    ∷ [])
