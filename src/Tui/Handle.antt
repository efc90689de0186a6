-- ===== src/Tui/Handle.antt =====
-- The event handler of src/gui/TuiDataFrameSet.cpp, lines 173-778: which mode or level gets an event.
pub mod Capture
pub mod Invariant
pub mod Dialogue
pub mod Pacing
use caneo.Common.{Bool, true, false, not, Option, none, some, ◌==◌, if◌then◌else◌}
use caneo.Common.Ieee.{Ieee}
use caneo.Playback.{Playback}
use caneo.Tui.{Tui, Handled, Event, PeriodicStep, no_step, playback_tab_idx}
use caneo.Tui.Edit.{actions_edit, send_edit, trace_search}
use caneo.Tui.Periodic.{periodic}
use caneo.Tui.Levels.{signal_list, playback_filter, action_signals, message_list}
use caneo.Tui.Tabs.{shortcut, playback_list, action_list, sub_tabs, main_tabs}

unfoldable pub is_no_step : PeriodicStep → Bool
is_no_step no_step = true
is_no_step _ = false

-- The controller, on its own tab.
playback_here : Tui → Option Playback
unfolding playback_tab_idx
playback_here t = if t.main_tab == playback_tab_idx t then t.playback else none

level_two : Ieee → Tui → Event → Handled
unfolding playback_here playback_filter action_signals message_list
level_two fp t e = elim (playback_here t) [
  | some c ↦ playback_filter t c e
  | none ↦ if t.main_tab == 2 then action_signals fp t e else message_list t e
]

level_one : Tui → Event → Handled
unfolding playback_here playback_list action_list sub_tabs
level_one t e = elim (playback_here t) [
  | some c ↦ playback_list t c e
  | none ↦ if t.main_tab == 2 then action_list t e else sub_tabs t e
]

navigate : Ieee → Tui → Event → Handled
unfolding level_two level_one signal_list main_tabs
navigate fp t e =
    if t.nav_level == 3
    then signal_list fp t e
    else if t.nav_level == 2
    then level_two fp t e
    else if t.nav_level == 1
    then level_one t e
    else main_tabs t e

no_mode : Ieee → Tui → Event → Handled
unfolding shortcut navigate
no_mode fp t e = elim (shortcut t e) [ some t' ↦ (t', true) | none ↦ navigate fp t e ]

unfoldable pub handle : Ieee → Tui → Event → Handled
unfolding actions_edit periodic send_edit trace_search no_mode is_no_step
handle fp t e =
    if t.actions_editing
    then actions_edit fp t e
    else if not (is_no_step t.periodic_step)
    then periodic fp t e
    else if t.send_editing
    then send_edit fp t e
    else if t.trace_searching
    then trace_search t e
    else no_mode fp t e
