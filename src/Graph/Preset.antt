-- ===== src/Graph/Preset.antt =====
-- src/gui/GraphPreset.cpp: the graphs that a YAML file asks for. The nodes of yaml-cpp are what the loader asks them.
use caneo.Common.{
  or_else, ℕ, ◌%◌, ◌^◌, ◌⊎◌, inl, inr, ◌||◌, Option, none, some, List, [], ◌∷◌, ◌++◌, if◌then◌else◌,
  is_empty,
}
use caneo.Common.Ieee.{Double}
use caneo.Dbc.{Signal, Message, Loaded, cannot_open, cannot_parse, network}
use caneo.Live.{InterfaceConfig}
use caneo.Preset.{Field, given_or, ◌>>◌}
use caneo.Graph.{GraphWindow, add_graph, add_signal}
use caneo.Common.Text.{Text}
use caneo.Common.Int.{ℤ, pos}
use caneo.Common.OrderedMap.{nat_key, text_key, pair_key, lookup, insert}

pub record SigInfo : Type 0 where
  pub low : Double
  pub high : Double

pub record MsgInfo : Type 0 where
  pub msg_id : ℕ
  pub signals : List (Text × SigInfo)

abbrev pub DbcIndex : Type 0
DbcIndex = List (Text × MsgInfo)

index_signals : List (Text × SigInfo) → List Signal → List (Text × SigInfo)
unfolding insert
index_signals index [] = index
index_signals index (s ∷ ss) =
    index_signals (insert s.name (record { low = s.minimum; high = s.maximum }) index) ss

index_messages : DbcIndex → List Message → DbcIndex
unfolding insert index_signals
index_messages index [] = index
index_messages index (m ∷ ms) =
    index_messages
      (insert m.name (record { msg_id = m.id % 2 ^ 32; signals = index_signals [] m.signals })
        index)
      ms

pub data Error : Type 0 where
  dbc_not_open dbc_not_parsed preset_not_loaded not_a_sequence bad_value : Error

unfoldable pub build_dbc_index : Loaded → DbcIndex ⊎ Error
unfolding index_messages
build_dbc_index cannot_open = inr dbc_not_open
build_dbc_index cannot_parse = inr dbc_not_parsed
build_dbc_index (network msgs) = inl (index_messages [] msgs)

-- The loop over the interfaces.
unfoldable pub index_interfaces :
    List (Text × DbcIndex) → List InterfaceConfig → List (Text × DbcIndex) ⊎ Error
unfolding build_dbc_index insert
index_interfaces index [] = inl index
index_interfaces index (cfg ∷ cfgs) = elim cfg.dbc [
  | none ↦ index_interfaces index cfgs
  | some dbc ↦ elim (build_dbc_index dbc) [
    | inr e ↦ inr e
    | inl i ↦ index_interfaces (insert cfg.name i index) cfgs
  ]
]

pub record SigNode : Type 0 where
  pub msg : Field Text
  pub signal : Field Text
  pub interface : Field Text
  pub y_min : Field Double
  pub y_max : Field Double
  pub y_axis : Field ℤ

-- `signals` is nothing where the key is missing or no sequence.
pub record GraphNode : Type 0 where
  pub name : Field Text
  pub signals : Option (List SigNode)

pub data PresetFile : Type 0 where
  unreadable other_node : PresetFile
  sequence : List GraphNode → PresetFile

module _ (cfgs : List InterfaceConfig) (index : List (Text × DbcIndex)) where
  -- The lambda try_iface.
  try_iface : Text → Text → Option (Text × MsgInfo)
  unfolding lookup
  try_iface msg_name iface = elim (lookup iface index) [
    | none ↦ none
    | some i ↦ elim (lookup msg_name i) [ none ↦ none | some mi ↦ some (iface, mi) ]
  ]

  first_iface : Text → List InterfaceConfig → Option (Text × MsgInfo)
  unfolding try_iface
  first_iface msg_name [] = none
  first_iface msg_name (c ∷ cs) = or_else (try_iface msg_name c.name) (first_iface msg_name cs)

  unfoldable pub resolve : Text → Text → Option (Text × MsgInfo)
  unfolding try_iface first_iface
  resolve msg_name hint =
      if is_empty hint then first_iface msg_name cfgs else try_iface msg_name hint

  range_of : MsgInfo → Text → SigInfo
  unfolding lookup
  range_of mi name = elim (lookup name mi.signals) [
    | none ↦ record { low = 0; high = 0 }
    | some r ↦ r
  ]

  -- A signal whose interface is known.
  add_resolved : ℕ → Text → Text → SigNode → GraphWindow → Text × MsgInfo → Option GraphWindow
  unfolding range_of add_signal
  add_resolved g msg_name sig_name node w (iface, mi) =
      let r = range_of mi sig_name in
      given_or r.low node.y_min >> λ low. given_or r.high node.y_max >> λ high.
      given_or (pos 0) node.y_axis >> λ axis. some (
        add_signal w g (record {
          interface = iface;
          msg_id = mi.msg_id;
          signal_name = sig_name;
          label = msg_name ++ (b'/' ∷ sig_name);
          y_min = low;
          y_max = high;
          y_axis = axis;
          xs = [];
          ys = [];
        }))

  add_found : ℕ → Text → Text → SigNode → GraphWindow → Option (Text × MsgInfo) → Option GraphWindow
  unfolding add_resolved
  add_found g msg_name sig_name node w none = some w
  add_found g msg_name sig_name node w (some r) = add_resolved g msg_name sig_name node w r

  -- One turn of the loop over the signals; nothing is an exception of a conversion.
  unfoldable pub add_node : ℕ → GraphWindow → SigNode → Option GraphWindow
  unfolding add_found resolve
  add_node g w node = given_or [] node.msg >> λ msg_name. given_or [] node.signal >> λ sig_name.
      if is_empty msg_name || is_empty sig_name
      then some w
      else (given_or [] node.interface >> λ hint.
          add_found g msg_name sig_name node w (resolve msg_name hint))

  unfoldable pub add_nodes : ℕ → List SigNode → GraphWindow → Option GraphWindow
  unfolding add_node
  add_nodes g [] w = some w
  add_nodes g (n ∷ ns) w = add_node g w n >> add_nodes g ns

  unfoldable pub load_graphs : List GraphNode → GraphWindow → Option GraphWindow
  unfolding add_nodes add_graph
  load_graphs [] w = some w
  load_graphs (n ∷ ns) w = given_or [] n.name >> λ name.
      let r = add_graph w name in
      elim n.signals [
        | none ↦ load_graphs ns r.0
        | some sigs ↦ add_nodes r.1 sigs r.0 >> load_graphs ns
      ]

load_file :
    List InterfaceConfig → List (Text × DbcIndex) → PresetFile → GraphWindow → GraphWindow ⊎ Error
unfolding load_graphs
load_file cfgs index unreadable w = inr preset_not_loaded
load_file cfgs index other_node w = inr not_a_sequence
load_file cfgs index (sequence nodes) w = elim (load_graphs cfgs index nodes w) [
  | none ↦ inr bad_value
  | some w' ↦ inl w'
]

-- load_graph_preset; nothing where no file is configured.
unfoldable pub load_graph_preset :
    List InterfaceConfig → Option PresetFile → GraphWindow → GraphWindow ⊎ Error
unfolding index_interfaces load_file
load_graph_preset cfgs none w = inl w
load_graph_preset cfgs (some file) w = elim (index_interfaces [] cfgs) [
  | inr e ↦ inr e
  | inl index ↦ load_file cfgs index file w
]
