-- ===== src/Tui/Tests.antt =====
-- One interface with one message and one signal, and the theorems on the handler at it.
use caneo.Common.{drop, length, ◌≡◌, refl, true, false, none, [], ◌∷◌, arith, List}
use caneo.Common.Text.{codes}
use caneo.Common.Int.{pos}
use caneo.Common.Plain.{plain}
use caneo.Dbc.{integer, no_mux, cannot_open}
use caneo.Send.{SendMessage}
use caneo.Tui.{Tui, no_step, sin_ready, enter, arrow_right, character, arrow_down}
use caneo.Config.{InterfaceConfig}
use caneo.Tui.Session.{Input, user_event, model_output, session, start_tui, IsSound, session_lem}
use caneo.Tui.Handle.{handle}
use caneo.Tui.Handle.Capture.{place}
use caneo.Tui.Handle.Invariant.{IsPlaced, handle-IsPlaced}
use caneo.Tui.Handle.Dialogue.{IsPaced}
use caneo.Tui.Handle.Pacing.{handle-IsPaced}

abbrev speed : SendMessage
speed = record {
  name = codes "Speed";
  id = 291;
  dlc = 2;
  signals =
      record {
        name = codes "Kmh";
        unit = codes "km/h";
        min_val = 0;
        max_val = 200;
        value = 7;
        sig = record {
          name = codes "Kmh";
          unit = codes "km/h";
          minimum = 0;
          maximum = 200;
          factor = 1;
          offset = 0;
          start_bit = 0;
          bit_size = 8;
          value_type = integer;
          multiplexer = no_mux;
          switch_value = 0;
          decode = λ bytes. length bytes;
          encode = λ raw bytes. raw ∷ drop 1 bytes;
          raw_to_phys = λ n. n;
          phys_to_raw = λ n. n;
        };
      }
      ∷ [];
}

abbrev screen : Tui
screen = record {
  interfaces = codes "can0" ∷ [];
  send_models = (codes "can0", speed ∷ []) ∷ [];
  playback = none;
  snapshot = [];
  posts = [];
  has_quit = false;
  nav_level = 0;
  main_tab = 3;
  playback_cursor = 0;
  playback_msg_cursor = 0;
  sub_tab_trace = 0;
  sub_tab_send = 0;
  send_msg_cursor = 0;
  send_sig_cursor = 0;
  actions_cursor = 0;
  actions_sig_cursor = 0;
  send_editing = false;
  send_edit_buf = [];
  actions_editing = false;
  actions_edit_buf = [];
  periodic_step = no_step;
  periodic_interval_buf = [];
  periodic_interval_ms = pos 0;
  periodic_type_cursor = 0;
  sin_amplitude_buf = [];
  sin_period_buf = [];
  sin_offset_buf = [];
  trace_searching = false;
  trace_search_buf = [];
  trace_cursor = 0;
  model_tab_enabled = true;
  model_outputs = [];
  sets = [];
}

-- The dialogue of a sin action, one confirmation before its end.
abbrev sin_dialogue : Tui
sin_dialogue = record screen {
  main_tab = 1;
  nav_level = 3;
  periodic_step = sin_ready;
  periodic_interval_ms = pos 20;
  sin_period_buf = codes "500";
}

right_wraps : (handle plain screen arrow_right).0.main_tab ≡ 0
unfolding handle
right_wraps = refl

handle-IsPlaced_example : IsPlaced (place (handle plain screen arrow_right).0)
handle-IsPlaced_example =
    handle-IsPlaced plain screen arrow_right
      (record { bounded = omega arith; known = omega arith; third = λ e. cc; second = λ e. cc })

handle-IsPaced_example : IsPaced (handle plain sin_dialogue enter).0
handle-IsPaced_example =
    handle-IsPaced plain sin_dialogue enter (record { interval = λ e. refl; posted = refl })

abbrev one_interface : List InterfaceConfig
one_interface =
    record { name = codes "can0"; dbc = codes "a.dbc"; actions_file = []; baudrate = 0 } ∷ []

abbrev inputs : List Input
inputs =
    user_event arrow_right
    ∷ user_event arrow_down
    ∷ model_output (codes "x") 3
    ∷ user_event (character (codes "m"))
    ∷ []

model_tab_shown :
    (session plain (start_tui (λ _. cannot_open) one_interface none true) inputs).main_tab ≡ 3
unfolding session start_tui
model_tab_shown = refl

session_lem_example :
    IsSound (session plain (start_tui (λ _. cannot_open) one_interface none true) inputs)
session_lem_example = session_lem plain (λ _. cannot_open) one_interface none true inputs
