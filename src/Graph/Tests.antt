-- ===== src/Graph/Tests.antt =====
-- A graph with one signal, and the theorem at it.
use caneo.Common.{refl, some, none, inl, ◌≡◌, true, List, [], ◌∷◌}
use caneo.Common.Text.{codes}
use caneo.Common.Int.{pos}
use caneo.Common.OrderedMap.{nat_key, text_key, pair_key}
use caneo.Common.Plain.{plain}
use caneo.Dbc.{network}
use caneo.Live.{InterfaceConfig}
use caneo.Preset.{absent, value}
use caneo.Graph.Preset.{SigNode, GraphNode, sequence, load_graph_preset}
use caneo.Frame.{CanFrame}
use caneo.Graph.{SignalSeries, new_window}
use caneo.Graph.Bounds.{all_bounded, Op, frame_op, value_op, graph_op, signal_op, run, run-bounded}

abbrev speed : SignalSeries
speed = record {
  interface = codes "can0";
  msg_id = 26;
  signal_name = codes "speed";
  label = [];
  y_min = 0;
  y_max = 0;
  y_axis = pos 0;
  xs = [];
  ys = [];
}

abbrev frame : CanFrame
frame = record {
  header = record { id = 26; interface = codes "can0"; dlc = 1 };
  payload = 7 ∷ [];
  decoded = record { name = codes "speed"; value = 5; unit = []; min_val = 0; max_val = 0 } ∷ [];
  msg_name = codes "A";
  timestamp = pos 1000;
}

abbrev ops : List Op
ops =
    graph_op []
    ∷ signal_op 0 speed
    ∷ signal_op 0 speed
    ∷ signal_op 7 speed
    ∷ frame_op frame
    ∷ value_op (codes "__model__") (codes "n") 3 (pos 9)
    ∷ []

run-bounded_example : all_bounded (run plain (new_window (pos 0)) ops) ≡ true
run-bounded_example = run-bounded plain (pos 0) ops

abbrev with_speed : InterfaceConfig
with_speed = record {
  name = codes "can1";
  dbc = some (
      network (
        record { id = 26; name = codes "Engine"; message_size = 8; signals = []; mux_signal = none }
        ∷ []));
}

abbrev speed_node : SigNode
speed_node = record {
  msg = value (codes "Engine");
  signal = value (codes "speed");
  interface = absent;
  y_min = absent;
  y_max = value 9;
  y_axis = absent;
}

abbrev nodes : List GraphNode
nodes = record { name = value (codes "Motor"); signals = some (speed_node ∷ []) } ∷ []

-- Without an interface the first one whose DBC file has the message is taken.
preset_loaded :
    load_graph_preset
      (record { name = codes "can0"; dbc = none } ∷ with_speed ∷ [])
      (some (sequence nodes))
      (new_window (pos 0))
    ≡ inl (record {
      start = pos 0;
      graphs =
          record {
            name = codes "Motor";
            series =
                record speed { interface = codes "can1"; label = codes "Engine/speed"; y_max = 9 }
                ∷ [];
          }
          ∷ [];
    })
unfolding load_graph_preset new_window
preset_loaded = refl
