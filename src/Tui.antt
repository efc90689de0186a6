-- ===== src/Tui.antt =====
-- src/gui/TuiDataFrameSet: the state of the terminal interface, its helpers, and the data update.
-- The handler of events is in the modules below. Cursors and tabs are never negative (each decrement
-- is guarded), so they are natural numbers; `std::min(cursor, size - 1)` is -1 for an empty list,
-- which is `none` here.
pub mod Edit
pub mod Create
pub mod Periodic
pub mod Levels
pub mod Tabs
pub mod Handle
pub mod Session
mod Tests
use caneo.Common.{
  ℕ, ◌+◌, ◌-◌, Bool, true, false, Option, none, some, List, [], ◌∷◌, ◌++◌, ltb, ◌==◌, if◌then◌else◌,
  length, get_elem?,
}
use caneo.Common.Text.{Text}
use caneo.Common.Int.{ℤ}
use caneo.Common.OrderedMap.{nat_key, text_key, pair_key, lookup, insert}
use caneo.Common.Ieee.{Double}
use caneo.Frame.{CanFrame, DataFrameSet, new_set}
use caneo.Frame
use caneo.Send.{SendModel, SendMessage}
use caneo.Playback.{Playback}
use caneo.Action.{ActionInfo}

-- `ftxui::Event`, as far as the handler tells events apart.
pub data Event : Type 0 where
  enter arrow_left arrow_right arrow_up arrow_down escape backspace delete custom : Event
  character : Text → Event

pub data PeriodicStep : Type 0 where
  no_step period_step type_select sin_amplitude_step sin_period_step sin_offset_step sin_ready :
      PeriodicStep

-- A call of the action handler, which posts it to the asio thread. The encode function of a sin action
-- is the interface, the message and the signal that its closure writes to.
pub data Post : Type 0 where
  single_action : Text → ℕ → Text → List ℕ → Post
  periodic_action : Text → ℕ → Text → List ℕ → ℤ → Post
  sin_action : Text → ℕ → Text → ℤ → ℕ → ℕ → Double → ℤ → Double → Post
  remove_action toggle_pause : ℕ → Post
  update_sin_param : ℕ → ℕ → Double → Post
  update_payload : ℕ → List ℕ → Post

pub record Tui : Type 0 where
  pub interfaces : List Text
  pub send_models : List (Text × SendModel)
  pub playback : Option Playback
  -- What `action_handler_.snapshot()` returns at present, and the calls made on the handler.
  pub snapshot : List ActionInfo
  pub posts : List Post
  pub has_quit : Bool
  pub nav_level : ℕ
  pub main_tab : ℕ
  pub playback_cursor : ℕ
  pub playback_msg_cursor : ℕ
  pub sub_tab_trace : ℕ
  pub sub_tab_send : ℕ
  pub send_msg_cursor : ℕ
  pub send_sig_cursor : ℕ
  pub actions_cursor : ℕ
  pub actions_sig_cursor : ℕ
  pub send_editing : Bool
  pub send_edit_buf : Text
  pub actions_editing : Bool
  pub actions_edit_buf : Text
  pub periodic_step : PeriodicStep
  pub periodic_interval_buf : Text
  pub periodic_interval_ms : ℤ
  pub periodic_type_cursor : ℕ
  pub sin_amplitude_buf : Text
  pub sin_period_buf : Text
  pub sin_offset_buf : Text
  pub trace_searching : Bool
  pub trace_search_buf : Text
  pub trace_cursor : ℕ
  pub model_tab_enabled : Bool
  pub model_outputs : List (Text × Double)
  pub sets : List (Text × DataFrameSet)

-- A handled event leaves the new state and whether the event was consumed.
abbrev pub Handled : Type 0
Handled = Tui × Bool

-- TuiDataFrameSet::update, under the mutex.
pub update_sets : Tui → CanFrame → Tui
unfolding lookup insert Frame.update new_set
update_sets t frame =
    let iface = frame.header.interface in
    elim (lookup iface t.sets) [
      | none ↦ record t { sets = insert iface (Frame.update (new_set iface) frame) t.sets }
      | some s ↦ record t { sets = insert iface (Frame.update s frame) t.sets }
    ]

-- TuiDataFrameSet::push_model_output, and enable_model_tab, which is called before the interface runs.
pub push_model_output : Tui → Text → Double → Tui
unfolding insert
push_model_output t name value = record t { model_outputs = insert name value t.model_outputs }

pub enable_model_tab : Tui → Tui
enable_model_tab t = record t { model_tab_enabled = true }

-- `std::min(cursor, size - 1)`, nothing for -1.
unfoldable pub clamp_index : ℕ → ℕ → Option ℕ
clamp_index cursor size =
    if size == 0 then none else some (if ltb cursor size then cursor else size - 1)

abbrev pub text_or_empty : Option Text → Text
text_or_empty none = []
text_or_empty (some s) = s

unfoldable pub selected_send_iface : Tui → Text
unfolding clamp_index
selected_send_iface t = elim (clamp_index t.sub_tab_send (length t.interfaces)) [
  | none ↦ []
  | some i ↦ text_or_empty (get_elem? t.interfaces i)
]

unfoldable pub selected_send_model : Tui → Option SendModel
unfolding selected_send_iface lookup
selected_send_model t = lookup (selected_send_iface t) t.send_models

-- The message under the cursor of the Send tab, with its place.
unfoldable pub selected_message : Tui → SendModel → Option (ℕ × SendMessage)
unfolding clamp_index
selected_message t model = elim (clamp_index t.send_msg_cursor (length model)) [
  | none ↦ none
  | some i ↦ elim (get_elem? model i) [ none ↦ none | some m ↦ some (i, m) ]
]

abbrev pub is_some {ℓ} : {A : Type ℓ} → Option A → Bool
is_some none = false
is_some (some _) = true

unfoldable pub playback_tab_idx : Tui → ℕ
playback_tab_idx t = if t.model_tab_enabled then 4 else 3

unfoldable pub tab_count : Tui → ℕ
tab_count t = 3 + (if t.model_tab_enabled then 1 else 0) + (if is_some t.playback then 1 else 0)

abbrev pub add_post : Post → Tui → Tui
add_post p t = record t { posts = t.posts ++ (p ∷ []) }

-- `buf.pop_back()` where the buffer is not empty.
unfoldable pub pop_back : Text → Text
pop_back [] = []
pop_back (c ∷ []) = []
pop_back (c ∷ d ∷ cs) = c ∷ pop_back (d ∷ cs)

-- `event.character()[0]`: the terminating zero for an empty string.
abbrev pub first_char : Text → ℕ
first_char [] = 0
first_char (c ∷ cs) = c
