-- ===== src/Tui/Handle/Capture.antt =====
-- The modes that take every event for themselves: src/gui/TuiDataFrameSet.cpp, lines 181-409.
use caneo.Common.{if_all, ℕ, ◌≡◌, Bool, true, not, ◌||◌, arith}
use caneo.Common.OrderedMap.{nat_key, text_key, pair_key}
use caneo.Common.Ieee.{Ieee}
use caneo.Tui.{Tui, Handled, Event, enter, escape, is_some}
use caneo.Tui.Create.{create_single_action}
use caneo.Tui.Edit.{actions_edit, send_edit, trace_search}
use caneo.Tui.Periodic.{periodic}
use caneo.Tui.Handle.{handle, is_no_step}

pub record Place : Type 0 where
  pub level : ℕ
  pub tab : ℕ
  pub model : Bool
  pub playing : Bool
  pub quit : Bool

abbrev pub place : Tui → Place
place t = record {
  level = t.nav_level;
  tab = t.main_tab;
  model = t.model_tab_enabled;
  playing = is_some t.playback;
  quit = t.has_quit;
}

module _ (fp : Ieee) (t : Tui) where
  pub place-actions_edit : (e : Event) → place (actions_edit fp t e).0 ≡ place t
  unfolding actions_edit
  place-actions_edit enter = ground arith
  place-actions_edit _ = ground arith

  pub place-send_edit : (e : Event) → place (send_edit fp t e).0 ≡ place t
  unfolding send_edit
  place-send_edit enter = ground arith
  place-send_edit _ = ground arith

  pub place-trace_search : (e : Event) → place (trace_search t e).0 ≡ place t
  unfolding trace_search
  place-trace_search enter = ground arith
  place-trace_search _ = ground arith

  place-create_single_action : place (create_single_action fp t) ≡ place t
  unfolding create_single_action
  place-create_single_action = ground arith

  pub place-periodic : (e : Event) → place (periodic fp t e).0 ≡ place t
  unfolding periodic
  place-periodic escape = ground arith
  place-periodic _ = ground arith

-- While a value is edited, an action is being set up or the trace is searched, no event changes the
-- tab, the level or the tabs there are, and none quits the program.
pub handle_captures :
    (fp : Ieee) (t : Tui) (e : Event)
    → t.actions_editing
        || (not (is_no_step t.periodic_step) || (t.send_editing || t.trace_searching))
      ≡ true
    → place (handle fp t e).0 ≡ place t
unfolding handle
handle_captures fp t e h =
    let P : Handled → Type 0 = λ r. place r.0 ≡ place t in
    if_all P t.actions_editing (λ _. place-actions_edit fp t e)
      λ n1.
        if_all P (not (is_no_step t.periodic_step)) (λ _. place-periodic fp t e)
          λ n2.
            if_all P t.send_editing (λ _. place-send_edit fp t e)
              λ n3.
                if_all P t.trace_searching (λ _. place-trace_search fp t e)
                  λ n4. absurd (ground (arith, h, n1, n2, n3, n4))
