-- ===== src/Logs/Tests.antt =====
-- A log that is started, and two frames of one message.
use caneo.Common.{true, none, [], ◌∷◌}
use caneo.Common.Text.{codes}
use caneo.Common.Int.{pos}
use caneo.Frame.{CanFrame}
use caneo.Proto.{Protobuf}
use caneo.Logs.{LogController, new_controller, start}

abbrev first : CanFrame
first = record {
  header = record { id = 26; interface = codes "can0"; dlc = 1 };
  payload = 7 ∷ [];
  decoded = [];
  msg_name = [];
  timestamp = pos 1000;
}

abbrev second : CanFrame
second = record first { timestamp = pos 1250 }

abbrev library : Protobuf
library = record { build = λ file. none; serialize = λ d fields. d.name }

abbrev open_log : LogController
open_log = (start new_controller (codes "log.mcap") true (pos 5)).0
