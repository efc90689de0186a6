-- ===== src/Tui/Edit.antt =====
-- The value editors and the trace search of src/gui/TuiDataFrameSet.cpp: lines 181-243 and 353-409.
use caneo.Common.{
  ℕ, ◌+◌, true, false, ◌||◌, Option, none, some, List, [], ◌∷◌, ◌++◌, ◌==◌, if◌then◌else◌, length,
  get_elem?, is_empty,
}
use caneo.Common.Text.{Text, codes, text_eq}
use caneo.Common.OrderedMap.{nat_key, text_key, pair_key, lookup, insert}
use caneo.Common.Ieee.{Ieee}
use caneo.Numerals.{is_digit}
use caneo.Send.{SendModel, SendMessage, set_value, encode}
use caneo.Action.{ActionInfo}
use caneo.Tui.{
  Tui, Handled, Event, enter, arrow_left, escape, backspace, character, clamp_index,
  selected_send_iface, selected_send_model, selected_message, add_post, pop_back, first_char,
  update_sin_param, update_payload,
}

-- Digits, a point and a minus sign go into the buffer.
abbrev pub edit_char : Text → Text → Text
edit_char buf s =
    let c = first_char s in if is_digit c || (c == b'.' || c == b'-') then buf ++ (c ∷ []) else buf

close_actions_edit : Tui → Tui
close_actions_edit t = record t { actions_editing = false; actions_edit_buf = [] }

-- The first message with an ID, and its place.
unfoldable pub find_message : ℕ → ℕ → SendModel → Option (ℕ × SendMessage)
find_message i id [] = none
find_message i id (m ∷ ms) = if m.id == id then some (i, m) else find_message (i + 1) id ms

-- The encoded message, or nothing where the index is bad.
abbrev pub bytes_or_empty : Option (List ℕ) → List ℕ
bytes_or_empty none = []
bytes_or_empty (some bytes) = bytes

module _ (fp : Ieee) where
  -- The value goes to the model, and the encoded message to the action.
  commit_signal : Tui → Text → SendModel → ℕ → SendMessage → Tui
  unfolding clamp_index set_value encode insert
  commit_signal t iface model mi m = elim (clamp_index t.actions_sig_cursor (length m.signals)) [
    | none ↦ t
    | some si ↦ elim (fp.stod t.actions_edit_buf) [
      | none ↦ t
      | some v ↦
          let model' = set_value model mi si v in
          add_post (update_payload t.actions_cursor (bytes_or_empty (encode fp model' mi)))
            (record t { send_models = insert iface model' t.send_models })
    ]
  ]

  commit_sin : Tui → Tui
  commit_sin t = elim (fp.stod t.actions_edit_buf) [
    | none ↦ t
    | some v ↦ add_post (update_sin_param t.actions_cursor t.actions_sig_cursor v) t
  ]

  commit_action : Tui → ActionInfo → Tui
  unfolding commit_signal commit_sin lookup find_message
  commit_action t info =
      if text_eq info.type_name (codes "Sin")
      then commit_sin t
      else elim (lookup info.interface t.send_models) [
        | none ↦ t
        | some model ↦ elim (find_message 0 info.msg_id model) [
          | none ↦ t
          | some (mi, m) ↦ commit_signal t info.interface model mi m
        ]
      ]

  commit_actions_edit : Tui → Tui
  unfolding commit_action
  commit_actions_edit t =
      if is_empty t.actions_edit_buf then t else elim (get_elem? t.snapshot t.actions_cursor) [
        | none ↦ t
        | some info ↦ commit_action t info
      ]

  -- Lines 181-243.
  unfoldable pub actions_edit : Tui → Event → Handled
  unfolding commit_actions_edit close_actions_edit pop_back
  actions_edit t enter = (close_actions_edit (commit_actions_edit t), true)
  actions_edit t arrow_left = (close_actions_edit (commit_actions_edit t), true)
  actions_edit t escape = (close_actions_edit t, true)
  actions_edit t backspace = (record t { actions_edit_buf = pop_back t.actions_edit_buf }, true)
  actions_edit t (character s) =
      (record t { actions_edit_buf = edit_char t.actions_edit_buf s }, true)
  actions_edit t _ = (t, false)

  close_send_edit : Tui → Tui
  close_send_edit t = record t { send_editing = false; send_edit_buf = [] }

  commit_send_edit : Tui → Tui
  unfolding selected_send_model selected_message clamp_index set_value insert
  commit_send_edit t = elim (selected_send_model t) [
    | none ↦ t
    | some model ↦ if is_empty t.send_edit_buf then t else elim (fp.stod t.send_edit_buf) [
      | none ↦ t
      | some v ↦ elim (selected_message t model) [
        | none ↦ t
        | some (mi, m) ↦ elim (clamp_index t.send_sig_cursor (length m.signals)) [
          | none ↦ t
          | some si ↦ record t {
            send_models = insert (selected_send_iface t) (set_value model mi si v) t.send_models;
          }
        ]
      ]
    ]
  ]

  -- Lines 353-391.
  unfoldable pub send_edit : Tui → Event → Handled
  unfolding commit_send_edit close_send_edit pop_back
  send_edit t enter = (close_send_edit (commit_send_edit t), true)
  send_edit t arrow_left = (close_send_edit (commit_send_edit t), true)
  send_edit t escape = (close_send_edit t, true)
  send_edit t backspace = (record t { send_edit_buf = pop_back t.send_edit_buf }, true)
  send_edit t (character s) = (record t { send_edit_buf = edit_char t.send_edit_buf s }, true)
  send_edit t _ = (t, false)

-- Lines 394-409.
unfoldable pub trace_search : Tui → Event → Handled
unfolding pop_back
trace_search t escape = (record t { trace_searching = false; trace_search_buf = [] }, true)
trace_search t backspace = (record t { trace_search_buf = pop_back t.trace_search_buf }, true)
trace_search t (character s) = (record t { trace_search_buf = t.trace_search_buf ++ s }, true)
trace_search t _ = (t, false)
