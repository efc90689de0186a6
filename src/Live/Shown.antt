-- ===== src/Live/Shown.antt =====
-- What the program shows of a message that another one sends: src/modes/run_live.cpp with src/send, src/decoder and
-- src/frame.
use caneo.Common.Text.{Text}
use caneo.Common.{List}
use caneo.Common.OrderedMap.{nat_key, text_key, pair_key}
use mathlib.Core.List.{Perm}
use mathlib.Core.List.Perm
use caneo.Common.Ieee.{Ieee}
use caneo.Live.{Live}
