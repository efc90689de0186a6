-- ===== src/Tui/Levels.antt =====
-- Navigation inside a tab, src/gui/TuiDataFrameSet.cpp: the signal list (lines 433-498), the playback
-- filter (501-529), the signals of an action (533-596) and the message list (599-624).
use caneo.Common.{
  ℕ, ◌+◌, ◌-◌, Bool, true, false, not, ◌&&◌, Option, none, some, List, [], ◌∷◌, ltb, ◌==◌,
  if◌then◌else◌, length, get_elem?, is_empty,
}
use caneo.Common.Text.{Text, codes, text_eq}
use caneo.Common.Int.{pos}
use caneo.Common.OrderedMap.{nat_key, text_key, pair_key, lookup}
use caneo.Common.Ieee.{Ieee}
use caneo.Numerals.{to_string}
use caneo.Send.{SendModel, SendMessage}
use caneo.Playback.{Playback, toggle_message, message_snapshot}
use caneo.Action.{ActionInfo}
use caneo.Tui.{
  Tui, Handled, Event, enter, arrow_left, arrow_right, arrow_up, arrow_down, character, period_step,
  clamp_index, selected_send_model, selected_message,
}
use caneo.Tui.Create.{create_single_action}
use caneo.Tui.Edit.{find_message}

-- `event == Event::Character(c)`.
abbrev pub is_key : Text → ℕ → Bool
is_key s c = text_eq s (c ∷ [])

start_periodic : Tui → Tui
start_periodic t = record t { periodic_step = period_step; periodic_interval_buf = [] }

-- The row under the cursor: a signal, the button for a single action, or the one for a periodic action.
open_row : Ieee → Tui → SendMessage → Tui
unfolding create_single_action start_periodic
open_row fp t m = elim (get_elem? m.signals t.send_sig_cursor) [
  | some sig ↦ record t { send_edit_buf = fp.format_g sig.value; send_editing = true }
  | none ↦
      if t.send_sig_cursor == length m.signals then create_single_action fp t else start_periodic t
]

open_signal : Ieee → Tui → Tui
unfolding selected_send_model selected_message open_row
open_signal fp t = elim (selected_send_model t) [
  | none ↦ t
  | some model ↦ elim (selected_message t model) [ none ↦ t | some (mi, m) ↦ open_row fp t m ]
]

-- The last row of the signal list: the signals, then two buttons.
max_row : Tui → ℕ
unfolding selected_send_model selected_message
max_row t = elim (selected_send_model t) [
  | none ↦ 1
  | some model ↦ elim (selected_message t model) [ none ↦ 1 | some (mi, m) ↦ length m.signals + 1 ]
]

to_periodic_button : Tui → Tui
unfolding selected_send_model selected_message
to_periodic_button t = elim (selected_send_model t) [
  | none ↦ t
  | some model ↦ elim (selected_message t model) [
    | none ↦ t
    | some (mi, m) ↦ record t { send_sig_cursor = length m.signals + 1 }
  ]
]

-- Lines 433-498.
unfoldable pub signal_list : Ieee → Tui → Event → Handled
unfolding open_signal max_row to_periodic_button start_periodic create_single_action
signal_list fp t arrow_left = (record t { nav_level = 2 }, true)
signal_list fp t arrow_right = (open_signal fp t, true)
signal_list fp t enter = (open_signal fp t, true)
signal_list fp t arrow_up = (record t { send_sig_cursor = t.send_sig_cursor - 1 }, true)
signal_list fp t arrow_down = (
  record t {
    send_sig_cursor =
        if ltb t.send_sig_cursor (max_row t) then t.send_sig_cursor + 1 else t.send_sig_cursor;
  },
  true,
)
signal_list fp t (character s) =
    if is_key s b'1'
    then (create_single_action fp t, true)
    else if is_key s b'2'
    then (start_periodic (to_periodic_button t), true)
    else (t, false)
signal_list fp t _ = (t, false)

abbrev pub name_at : List (Text × Bool) → ℕ → Option Text
name_at l i = elim (get_elem? l i) [ none ↦ none | some (n, b) ↦ some n ]

filter_down : Tui → Playback → Tui
unfolding message_snapshot
filter_down t c = elim (name_at c.states t.playback_cursor) [
  | none ↦ t
  | some iface ↦
      if ltb t.playback_msg_cursor (length (message_snapshot c iface))
      then record t { playback_msg_cursor = t.playback_msg_cursor + 1 }
      else t
]

-- The cursor is not negative, so `toggle_message` does not fault.
filter_toggle : Tui → Playback → Tui
unfolding toggle_message
filter_toggle t c = elim (name_at c.states t.playback_cursor) [
  | none ↦ t
  | some iface ↦ elim (toggle_message c iface (pos t.playback_msg_cursor)) [
    | none ↦ t
    | some c' ↦ record t { playback = some c' }
  ]
]

-- Lines 501-529.
unfoldable pub playback_filter : Tui → Playback → Event → Handled
unfolding filter_down filter_toggle
playback_filter t c arrow_left = (record t { nav_level = 1 }, true)
playback_filter t c arrow_up = (record t { playback_msg_cursor = t.playback_msg_cursor - 1 }, true)
playback_filter t c arrow_down = (filter_down t c, true)
playback_filter t c enter = (filter_toggle t c, true)
playback_filter t c _ = (t, false)

module _ (fp : Ieee) where
  prefill_sin : Tui → ActionInfo → Tui
  unfolding to_string
  prefill_sin t info = record t {
    actions_edit_buf =
        if t.actions_sig_cursor == 0
        then fp.format_g info.sin_amplitude
        else if t.actions_sig_cursor == 1
        then to_string info.sin_period_ms
        else if t.actions_sig_cursor == 2
        then fp.format_g info.sin_offset
        else t.actions_edit_buf;
    actions_editing = true;
  }

  -- The first message with the action's ID that has a signal.
  find_filled : ℕ → SendModel → Option SendMessage
  find_filled id [] = none
  find_filled id (m ∷ ms) =
      if m.id == id && not (is_empty m.signals) then some m else find_filled id ms

  prefill_signal : Tui → ActionInfo → Tui
  unfolding lookup find_filled clamp_index
  prefill_signal t info = elim (lookup info.interface t.send_models) [
    | none ↦ t
    | some model ↦ elim (find_filled info.msg_id model) [
      | none ↦ t
      | some m ↦ elim (clamp_index t.actions_sig_cursor (length m.signals)) [
        | none ↦ t
        | some i ↦ elim (get_elem? m.signals i) [
          | none ↦ t
          | some sig ↦ record t { actions_edit_buf = fp.format_g sig.value; actions_editing = true }
        ]
      ]
    ]
  ]

  open_action : Tui → Tui
  unfolding prefill_sin prefill_signal
  open_action t = elim (get_elem? t.snapshot t.actions_cursor) [
    | none ↦ t
    | some info ↦
        if text_eq info.type_name (codes "Sin") then prefill_sin t info else prefill_signal t info
  ]

  -- The last row of the signals of an action, nothing where there is no action to show.
  last_row : Tui → ActionInfo → Option ℕ
  unfolding lookup find_message
  last_row t info =
      if text_eq info.type_name (codes "Sin")
      then some 2
      else elim (lookup info.interface t.send_models) [
        | none ↦ none
        | some model ↦ elim (find_message 0 info.msg_id model) [
          | none ↦ none
          | some (mi, m) ↦ some (length m.signals - 1)
        ]
      ]

  action_down : Tui → Tui
  unfolding last_row
  action_down t = elim (get_elem? t.snapshot t.actions_cursor) [
    | none ↦ t
    | some info ↦ elim (last_row t info) [
      | none ↦ t
      | some max ↦
          if ltb t.actions_sig_cursor max
          then record t { actions_sig_cursor = t.actions_sig_cursor + 1 }
          else t
    ]
  ]

  -- Lines 533-596.
  unfoldable pub action_signals : Tui → Event → Handled
  unfolding open_action action_down
  action_signals t arrow_left = (record t { nav_level = 1 }, true)
  action_signals t arrow_right = (open_action t, true)
  action_signals t enter = (open_action t, true)
  action_signals t arrow_up = (record t { actions_sig_cursor = t.actions_sig_cursor - 1 }, true)
  action_signals t arrow_down = (action_down t, true)
  action_signals t _ = (t, false)

-- The messages of the selected interface; empty where it has no model.
abbrev pub send_messages : Tui → SendModel
send_messages t = elim (selected_send_model t) [ none ↦ [] | some model ↦ model ]

open_messages : Tui → Tui
open_messages t =
    if is_empty (send_messages t) then t else record t { send_sig_cursor = 0; nav_level = 3 }

-- Lines 599-624.
unfoldable pub message_list : Tui → Event → Handled
unfolding selected_send_model open_messages
message_list t arrow_left = (record t { nav_level = 1 }, true)
message_list t arrow_right = (open_messages t, true)
message_list t enter = (open_messages t, true)
message_list t arrow_up = (record t { send_msg_cursor = t.send_msg_cursor - 1 }, true)
message_list t arrow_down = (
  record t {
    send_msg_cursor =
        if ltb (t.send_msg_cursor + 1) (length (send_messages t))
        then t.send_msg_cursor + 1
        else t.send_msg_cursor;
  },
  true,
)
message_list t _ = (t, false)
