-- ===== src/Graph.antt =====
-- src/gui/GraphWindow and src/gui/ModelWindow without their drawing: the points that are kept for the graphs, and the
-- outputs of a model. Each method holds the mutex while it works.
pub mod Bounds
pub mod Preset
mod Tests
use caneo.Common.{
  ℕ, ◌+◌, ◌-◌, Bool, ◌&&◌, Option, none, some, List, [], ◌∷◌, ◌++◌, map, ltb, ◌==◌, if◌then◌else◌,
  length, get_elem?, set, drop, any, is_empty,
}
use caneo.Common.Text.{Text, codes, text_eq}
use caneo.Common.Int.{ℤ, pos, ◌-ℤ◌}
use caneo.Common.Ieee.{Double, Ieee}
use caneo.Frame.{CanFrame, DecodedSignal}
use caneo.Numerals.{to_string}

pub record SignalSeries : Type 0 where
  pub interface : Text
  pub msg_id : ℕ
  pub signal_name : Text
  pub label : Text
  pub y_min : Double
  pub y_max : Double
  pub y_axis : ℤ
  pub xs : List Double
  pub ys : List Double

-- What the drawing keeps for a tab is left out.
pub record GraphTab : Type 0 where
  pub name : Text
  pub series : List SignalSeries

pub record GraphWindow : Type 0 where
  pub start : ℤ
  pub graphs : List GraphTab

-- The constructor, at a time.
pub new_window : ℤ → GraphWindow
new_window now = record { start = now; graphs = [] }

-- `MAX`
abbrev pub max_points : ℕ
max_points = 10000

-- SignalSeries::push
unfoldable pub push : SignalSeries → Double → Double → SignalSeries
push s t v =
    let xs = s.xs ++ (t ∷ []) in
    let ys = s.ys ++ (v ∷ []) in
    if ltb max_points (length xs)
    then record s { xs = drop 1 xs; ys = drop 1 ys }
    else record s { xs = xs; ys = ys }

-- The first signal of a name.
pub first_value : Text → List DecodedSignal → Option Double
first_value name [] = none
first_value name (s ∷ ss) = if text_eq s.name name then some s.value else first_value name ss

pub push_found : SignalSeries → Double → Option Double → SignalSeries
unfolding push
push_found s t none = s
push_found s t (some v) = push s t v

pub update_series : Double → CanFrame → SignalSeries → SignalSeries
unfolding push_found first_value
update_series t frame s =
    if text_eq s.interface frame.header.interface && s.msg_id == frame.header.id
    then push_found s t (first_value s.signal_name frame.decoded)
    else s

-- A value goes to the first series of each tab that has the interface, no message and the name.
pub push_first : Text → Text → Double → Double → List SignalSeries → List SignalSeries
unfolding push
push_first interface name t v [] = []
push_first interface name t v (s ∷ ss) =
    if text_eq s.interface interface && (s.msg_id == 0 && text_eq s.signal_name name)
    then push s t v ∷ ss
    else s ∷ push_first interface name t v ss

pub on_series : (List SignalSeries → List SignalSeries) → GraphWindow → GraphWindow
on_series f w = record w {
  graphs = map (λ (tab : GraphTab). record tab { series = f tab.series }) w.graphs;
}

module _ (fp : Ieee) where
  unfoldable pub update : GraphWindow → CanFrame → GraphWindow
  unfolding on_series update_series
  update w frame = on_series (map (update_series (fp.seconds (frame.timestamp -ℤ w.start)) frame)) w

  unfoldable pub push_value : GraphWindow → Text → Text → Double → ℤ → GraphWindow
  unfolding on_series push_first
  push_value w interface name v now =
      on_series (push_first interface name (fp.seconds (now -ℤ w.start)) v) w

pub add_graph : GraphWindow → Text → GraphWindow × ℕ
unfolding to_string
add_graph w name =
    let n = length w.graphs in
    let given = if is_empty name then codes "graph" ++ to_string (pos (n + 1)) else name in
    (record w { graphs = w.graphs ++ (record { name = given; series = [] } ∷ []) }, n)

pub is_series : Text → ℕ → Text → SignalSeries → Bool
is_series interface msg_id name s =
    text_eq s.interface interface && (s.msg_id == msg_id && text_eq s.signal_name name)

-- add_signal; `wanted` is the series that its arguments describe, with the points that it has at first.
pub add_signal : GraphWindow → ℕ → SignalSeries → GraphWindow
unfolding is_series
add_signal w graph_idx wanted = elim (get_elem? w.graphs graph_idx) [
  | none ↦ w
  | some tab ↦
      if any (is_series wanted.interface wanted.msg_id wanted.signal_name) tab.series
      then w
      else record w {
        graphs = set w.graphs graph_idx (record tab {
          series =
              tab.series
              ++ (record wanted {
                label = if is_empty wanted.label then wanted.signal_name else wanted.label;
                xs = [];
                ys = [];
              }
                  ∷ []);
        });
      }
]

pub graph_names : GraphWindow → List Text
graph_names w = map (λ (tab : GraphTab). tab.name) w.graphs

-- ModelWindow::push, up to the call of push_value with the interface "__model__".
pub model_push : List (Text × Double) → Text → Double → List (Text × Double)
model_push [] name v = (name, v) ∷ []
model_push ((n, x) ∷ rest) name v =
    if text_eq n name then (n, v) ∷ rest else (n, x) ∷ model_push rest name v
