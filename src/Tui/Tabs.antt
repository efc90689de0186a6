-- ===== src/Tui/Tabs.antt =====
-- Navigation between tabs, src/gui/TuiDataFrameSet.cpp: shortcuts (lines 412-430), the playback list
-- (629-656), the action list (659-696), the sub-tabs of Trace and Send (699-758), the tabs (762-776).
use caneo.Common.{
  ℕ, ◌+◌, ◌-◌, ◌%◌, true, false, ◌&&◌, Option, none, some, ltb, ◌==◌, if◌then◌else◌, length,
  get_elem?, set, is_empty,
}
use caneo.Common.OrderedMap.{nat_key, text_key, pair_key}
use caneo.Playback.{Playback, toggle}
use caneo.Tui.{
  Tui, Handled, Event, enter, arrow_left, arrow_right, arrow_up, arrow_down, escape, backspace,
  delete, character, playback_tab_idx, tab_count, add_post, is_some, toggle_pause, remove_action,
}
use caneo.Tui.Levels.{is_key, name_at, send_messages}

-- Lines 412-430; nothing where the event is no shortcut.
unfoldable pub shortcut : Tui → Event → Option Tui
unfolding playback_tab_idx
shortcut t escape = some (record t { has_quit = true })
shortcut t (character s) =
    if is_key s b'q'
    then some (record t { has_quit = true })
    else if is_key s b't'
    then some (record t { main_tab = 0; nav_level = 1 })
    else if is_key s b's'
    then some (record t { main_tab = 1; nav_level = 1 })
    else if is_key s b'a'
    then some (record t { main_tab = 2; nav_level = 1 })
    else if is_key s b'm' && t.model_tab_enabled
    then some (record t { main_tab = 3; nav_level = 1 })
    else if is_key s b'p' && is_some t.playback
    then some (record t { main_tab = playback_tab_idx t; nav_level = 1 })
    else if is_key s b'f' && t.main_tab == 0
    then some (record t { trace_searching = true })
    else none
shortcut t _ = none

playback_select : Tui → Playback → Tui
unfolding toggle
playback_select t c = elim (name_at c.states t.playback_cursor) [
  | none ↦ t
  | some iface ↦ record t { playback = some (toggle c iface) }
]

playback_open : Tui → Playback → Tui
playback_open t c =
    if ltb t.playback_cursor (length c.states)
    then record t { playback_msg_cursor = 0; nav_level = 2 }
    else t

-- Lines 629-656. The source tests `Return` a second time, behind the first test.
unfoldable pub playback_list : Tui → Playback → Event → Handled
unfolding playback_select playback_open
playback_list t c arrow_up = (
  if ltb 0 t.playback_cursor
      then record t { playback_cursor = t.playback_cursor - 1 }
      else record t { nav_level = 0 },
  true,
)
playback_list t c arrow_down = (
  if ltb (t.playback_cursor + 1) (length c.states)
      then record t { playback_cursor = t.playback_cursor + 1 }
      else t,
  true,
)
playback_list t c enter = (playback_select t c, true)
playback_list t c arrow_right = (playback_open t c, true)
playback_list t c _ = (t, false)

open_action_row : Tui → Tui
open_action_row t =
    if ltb t.actions_cursor (length t.snapshot)
    then record t { actions_sig_cursor = 0; nav_level = 2 }
    else t

pause_row : Tui → Tui
pause_row t = elim (get_elem? t.snapshot t.actions_cursor) [
  | none ↦ t
  | some info ↦ add_post (toggle_pause info.idx) t
]

remove_row : Tui → Tui
remove_row t = elim (get_elem? t.snapshot t.actions_cursor) [
  | none ↦ t
  | some info ↦
      add_post (remove_action info.idx) (record t { actions_cursor = t.actions_cursor - 1 })
]

-- Lines 659-696.
unfoldable pub action_list : Tui → Event → Handled
unfolding open_action_row pause_row remove_row
action_list t arrow_up = (
  if ltb 0 t.actions_cursor
      then record t { actions_cursor = t.actions_cursor - 1 }
      else record t { nav_level = 0 },
  true,
)
action_list t arrow_down = (
  if ltb (t.actions_cursor + 1) (length t.snapshot)
      then record t { actions_cursor = t.actions_cursor + 1 }
      else t,
  true,
)
action_list t arrow_right = (open_action_row t, true)
action_list t enter = (open_action_row t, true)
action_list t (character s) = if is_key s b' ' then (pause_row t, true) else (t, false)
action_list t delete = (remove_row t, true)
action_list t backspace = (remove_row t, true)
action_list t _ = (t, false)

-- The number of frames of the interface that the Trace tab shows.
trace_count : Tui → ℕ
trace_count t =
    let last = length t.sets - 1 in
    elim (get_elem? t.sets
      (if ltb t.sub_tab_trace (length t.sets) then t.sub_tab_trace else last)) [
        | none ↦ 0
        | some (name, set) ↦ length set.frames
      ]

trace_down : Tui → Tui
unfolding trace_count
trace_down t =
    if ltb (t.trace_cursor + 1) (trace_count t)
    then record t { trace_cursor = t.trace_cursor + 1 }
    else t

send_down : Tui → Tui
send_down t =
    if is_empty (send_messages t) then t else record t { send_msg_cursor = 0; nav_level = 2 }

-- To the next sub-tab, `step` further round.
turn_sub_tab : ℕ → ℕ → Tui → Tui
turn_sub_tab trace_step send_step t =
    if t.main_tab == 0
    then (if is_empty t.sets then t else record t {
      sub_tab_trace = (t.sub_tab_trace + trace_step) % length t.sets;
      trace_cursor = 0;
    })
    else (if is_empty t.interfaces
        then t
        else record t { sub_tab_send = (t.sub_tab_send + send_step) % length t.interfaces })

-- Lines 699-758.
unfoldable pub sub_tabs : Tui → Event → Handled
unfolding trace_down send_down turn_sub_tab
sub_tabs t arrow_up = (
  if t.main_tab == 0 && ltb 0 t.trace_cursor
      then record t { trace_cursor = t.trace_cursor - 1 }
      else record t { nav_level = 0 },
  true,
)
sub_tabs t arrow_down =
    if t.main_tab == 0
    then (trace_down t, true)
    else if t.main_tab == 1
    then (send_down t, true)
    else (t, false)
sub_tabs t arrow_right = (turn_sub_tab 1 1 t, true)
sub_tabs t arrow_left = (turn_sub_tab (length t.sets - 1) (length t.interfaces - 1) t, true)
sub_tabs t _ = (t, false)

-- Lines 762-776.
unfoldable pub main_tabs : Tui → Event → Handled
unfolding tab_count
main_tabs t arrow_down = (record t { nav_level = 1 }, true)
main_tabs t arrow_right = (record t { main_tab = (t.main_tab + 1) % tab_count t }, true)
main_tabs t arrow_left =
    (record t { main_tab = (t.main_tab + tab_count t - 1) % tab_count t }, true)
main_tabs t _ = (t, false)
