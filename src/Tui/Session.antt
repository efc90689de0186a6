-- ===== src/Tui/Session.antt =====
-- src/gui/TuiDataFrameSet.cpp, lines 37-50: the terminal interface from its construction on, with all that reaches it:
-- events of the user, frames and outputs of a model.
use caneo.Frame.{DataFrameSet, CanFrame}
use caneo.Common.Ieee.{Ieee, Double}
use caneo.Dbc.{Loaded}
use caneo.Send.{SendModel, new_model}
use caneo.Send
use caneo.Playback.{Playback}
use caneo.Config.{InterfaceConfig}
use caneo.Tui.{Tui, Event, no_step, update_sets, push_model_output, enable_model_tab}
use caneo.Tui.Handle.{handle}
use caneo.Tui.Handle.Capture.{place}
use caneo.Tui.Handle.Invariant.{IsPlaced, handle-IsPlaced}
use caneo.Common.{
  if_all, ◌≡◌, refl, ◌⊎◌, inl, inr, Bool, true, false, Option, none, some, List, [], ◌∷◌, ◌++◌,
  arith, if◌then◌else◌, Option-cases, all, is_empty,
}
use caneo.Tui.Handle.Dialogue.{IsPaced, is_set_up, is_paced}
use caneo.Tui.Handle.Pacing.{handle-IsPaced}
use caneo.Action.{ActionInfo}
use caneo.Common.Text.{Text}
use caneo.Common.Int.{pos}
use caneo.Common.OrderedMap.{nat_key, text_key, pair_key, lookup, insert}

-- The members at the start.
unfoldable pub initial : Option Playback → Tui
initial playback = record {
  interfaces = [];
  send_models = [];
  playback = playback;
  snapshot = [];
  posts = [];
  has_quit = false;
  nav_level = 0;
  main_tab = 0;
  playback_cursor = 0;
  playback_msg_cursor = 0;
  sub_tab_trace = 0;
  sub_tab_send = 0;
  send_msg_cursor = 0;
  send_sig_cursor = 0;
  actions_cursor = 0;
  actions_sig_cursor = 0;
  send_editing = false;
  send_edit_buf = [];
  actions_editing = false;
  actions_edit_buf = [];
  periodic_step = no_step;
  periodic_interval_buf = [];
  periodic_interval_ms = pos 0;
  periodic_type_cursor = 0;
  sin_amplitude_buf = [];
  sin_period_buf = [];
  sin_offset_buf = [];
  trace_searching = false;
  trace_search_buf = [];
  trace_cursor = 0;
  model_tab_enabled = false;
  model_outputs = [];
  sets = [];
}

-- `send_models_.emplace(name, ...)`: an entry that is there stays, and an exception of the model is
-- dropped.
unfoldable pub emplace_model :
    Text → SendModel ⊎ Send.Error → List (Text × SendModel) → List (Text × SendModel)
unfolding lookup insert
emplace_model name (inr e) models = models
emplace_model name (inl m) models = elim (lookup name models) [
  | none ↦ insert name m models
  | some old ↦ models
]

-- The loop of the constructor; `load` is what a DBC path leads to.
unfoldable pub add_interface : (Text → Loaded) → Tui → InterfaceConfig → Tui
unfolding emplace_model new_model
add_interface load t cfg = record t {
  interfaces = t.interfaces ++ (cfg.name ∷ []);
  send_models =
      if is_empty cfg.dbc
      then t.send_models
      else emplace_model cfg.name (new_model (load cfg.dbc)) t.send_models;
}

unfoldable pub add_interfaces : (Text → Loaded) → Tui → List InterfaceConfig → Tui
unfolding add_interface
add_interfaces load t [] = t
add_interfaces load t (cfg ∷ cfgs) = add_interfaces load (add_interface load t cfg) cfgs

unfoldable pub new_tui : (Text → Loaded) → List InterfaceConfig → Option Playback → Tui
unfolding initial add_interfaces
new_tui load cfgs playback = add_interfaces load (initial playback) cfgs

-- What reaches the interface, in one order: the mutex lets one of the threads in at a time. The action handler and the
-- controller of a recording change on other threads as well, and are read anew by each event.
pub data Input : Type 0 where
  user_event : Event → Input
  frame_arrives : CanFrame → Input
  model_output : Text → Double → Input
  new_snapshot : List ActionInfo → Input

unfoldable pub take_input : Ieee → Tui → Input → Tui
unfolding handle update_sets push_model_output
take_input fp t (user_event e) = (handle fp t e).0
take_input fp t (frame_arrives f) = update_sets t f
take_input fp t (model_output name v) = push_model_output t name v
take_input fp t (new_snapshot s) = record t { snapshot = s }

unfoldable pub session : Ieee → Tui → List Input → Tui
unfolding take_input
session fp t [] = t
session fp t (i ∷ is) = session fp (take_input fp t i) is

abbrev pub IsSound : Tui → Type 0
IsSound t = IsPlaced (place t) × IsPaced t

sets-IsSound :
    (t : Tui) (x : List (Text × DataFrameSet)) → IsSound t → IsSound (record t { sets = x })
sets-IsSound t x (p, q) = (p, record { interval = q.interval; posted = q.posted })

update_sets-IsSound : (t : Tui) (f : CanFrame) → IsSound t → IsSound (update_sets t f)
unfolding update_sets
update_sets-IsSound t f h = elim (Option-cases (lookup f.header.interface t.sets)) [
  | inl e ↦ rw (e, update_sets) (sets-IsSound t _ h)
  | inr (s, e) ↦ rw (e, update_sets) (sets-IsSound t _ h)
]

module _ (fp : Ieee) where
  take_input-IsSound : (t : Tui) (i : Input) → IsSound t → IsSound (take_input fp t i)
  unfolding take_input update_sets push_model_output
  take_input-IsSound t (user_event e) (p, q) = (handle-IsPlaced fp t e p, handle-IsPaced fp t e q)
  take_input-IsSound t (frame_arrives f) h = update_sets-IsSound t f h
  take_input-IsSound t (model_output name v) (p, q) =
      (p, record { interval = q.interval; posted = q.posted })
  take_input-IsSound t (new_snapshot s) (p, q) =
      (p, record { interval = q.interval; posted = q.posted })

  session-IsSound : (is : List Input) (t : Tui) → IsSound t → IsSound (session fp t is)
  unfolding session
  session-IsSound [] t h = h
  session-IsSound (i ∷ is) t h = session-IsSound is (take_input fp t i) (take_input-IsSound t i h)

-- What the program does before it runs the interface: the constructor, and the tab of a model.
unfoldable pub start_tui : (Text → Loaded) → List InterfaceConfig → Option Playback → Bool → Tui
unfolding new_tui enable_model_tab
start_tui load cfgs playback model_tab =
    let t = new_tui load cfgs playback in if model_tab then enable_model_tab t else t

-- Where the interface is before its first event.
abbrev pub AtStart : Tui → Type 0
AtStart t =
    (t.nav_level ≡ 0)
    × ((t.main_tab ≡ 0) × ((is_set_up t.periodic_step ≡ false) × (all is_paced t.posts ≡ true)))

add_interfaces-AtStart :
    (load : Text → Loaded) (cfgs : List InterfaceConfig) (t : Tui)
    → AtStart t
    → AtStart (add_interfaces load t cfgs)
unfolding add_interfaces add_interface
add_interfaces-AtStart load [] t h = h
add_interfaces-AtStart load (c ∷ cs) t h = add_interfaces-AtStart load cs (add_interface load t c) h

AtStart-IsSound : (t : Tui) → AtStart t → IsSound t
AtStart-IsSound t h = (
  record {
    bounded = omega (arith, h.0);
    known = ground (arith, h.1.0);
    third = λ e. absurd (omega (arith, e, h.0));
    second = λ e. absurd (omega (arith, e, h.0));
  },
  record { interval = λ e. absurd (ground (arith, e, h.1.1.0)); posted = h.1.1.1 },
)

start_tui-AtStart :
    (load : Text → Loaded) (cfgs : List InterfaceConfig) (playback : Option Playback)
    (model_tab : Bool)
    → AtStart (start_tui load cfgs playback model_tab)
unfolding start_tui new_tui enable_model_tab initial
start_tui-AtStart load cfgs playback model_tab =
    if_all AtStart model_tab
      (λ _. add_interfaces-AtStart load cfgs (initial playback) (refl, (refl, (refl, refl))))
      (λ _. add_interfaces-AtStart load cfgs (initial playback) (refl, (refl, (refl, refl))))

-- From its construction on, after any interleaving of events, frames and outputs of a model, the
-- interface is in a tab that exists at a level that this tab has, and no action was posted whose
-- period or interval is not positive.
pub session_lem :
    (fp : Ieee) (load : Text → Loaded) (cfgs : List InterfaceConfig) (playback : Option Playback)
    (model_tab : Bool) (is : List Input)
    → IsSound (session fp (start_tui load cfgs playback model_tab) is)
session_lem fp load cfgs playback model_tab is =
    session-IsSound fp is (start_tui load cfgs playback model_tab)
      (AtStart-IsSound _ (start_tui-AtStart load cfgs playback model_tab))
