-- ===== src/Tui/Handle/Pacing.antt =====
-- No action with a period of zero or less: src/gui/TuiDataFrameSet.cpp, lines 173-778.
use caneo.Common.{if_all, inl, inr, not, ◌&&◌, Option, arith, ◌==◌, Option-cases}
use caneo.Common.OrderedMap.{nat_key, text_key, pair_key}
use caneo.Common.Ieee.{Ieee}
use caneo.Playback.{Playback}
use caneo.Tui.{Tui, Handled, Event, enter, escape, character, is_some}
use caneo.Tui.Levels.{is_key, signal_list, playback_filter, action_signals, message_list}
use caneo.Tui.Handle.{playback_here, handle, navigate, no_mode, level_one, level_two, is_no_step}
use caneo.Tui.Handle.Invariant.{AllOption}
use caneo.Tui.Tabs.{shortcut, playback_list, sub_tabs, main_tabs}
use caneo.Tui.Handle.Dialogue.{
  IsPaced, actions_edit-IsPaced, send_edit-IsPaced, trace_search-IsPaced, action_list-IsPaced,
  periodic-IsPaced, all-snoc,
}

module _ (fp : Ieee) (t : Tui) (v : IsPaced t) where
  signal_list-IsPaced : (e : Event) → IsPaced (signal_list fp t e).0
  unfolding signal_list
  signal_list-IsPaced enter = grind (arith, all-snoc)
  signal_list-IsPaced _ = grind (arith, all-snoc)

  message_list-IsPaced : (e : Event) → IsPaced (message_list t e).0
  unfolding message_list
  message_list-IsPaced enter = ground arith
  message_list-IsPaced _ = ground arith

  action_signals-IsPaced : (e : Event) → IsPaced (action_signals fp t e).0
  unfolding action_signals
  action_signals-IsPaced enter = ground arith
  action_signals-IsPaced _ = ground arith

  playback_filter-IsPaced : (c : Playback) (e : Event) → IsPaced (playback_filter t c e).0
  unfolding playback_filter
  playback_filter-IsPaced c enter = ground arith
  playback_filter-IsPaced c _ = ground arith

  playback_list-IsPaced : (c : Playback) (e : Event) → IsPaced (playback_list t c e).0
  unfolding playback_list
  playback_list-IsPaced c enter = ground arith
  playback_list-IsPaced c _ = ground arith

  sub_tabs-IsPaced : (e : Event) → IsPaced (sub_tabs t e).0
  unfolding sub_tabs
  sub_tabs-IsPaced enter = ground arith
  sub_tabs-IsPaced _ = ground arith

  main_tabs-IsPaced : (e : Event) → IsPaced (main_tabs t e).0
  unfolding main_tabs
  main_tabs-IsPaced enter = ground arith
  main_tabs-IsPaced _ = ground arith

  shortcut-IsPaced : (e : Event) → AllOption IsPaced (shortcut t e)
  unfolding shortcut
  shortcut-IsPaced escape = ground arith
  shortcut-IsPaced (character s) =
      let P : Option Tui → Type 0 = AllOption IsPaced in
      if_all P (is_key s b'q') (λ _. ground arith)
        λ _.
          if_all P (is_key s b't') (λ _. ground arith)
            λ _.
              if_all P (is_key s b's') (λ _. ground arith)
                λ _.
                  if_all P (is_key s b'a') (λ _. ground arith)
                    λ _.
                      if_all P (is_key s b'm' && t.model_tab_enabled) (λ h. ground arith)
                        λ _.
                          if_all P (is_key s b'p' && is_some t.playback) (λ h. ground arith)
                            λ _.
                              if_all P (is_key s b'f' && t.main_tab == 0) (λ _. ground arith)
                                (λ _. tt)
  shortcut-IsPaced _ = tt

  level_two-IsPaced : (e : Event) → IsPaced (level_two fp t e).0
  unfolding level_two
  level_two-IsPaced e = elim (Option-cases (playback_here t)) [
    | inr (c, h) ↦ rw (h, level_two) (playback_filter-IsPaced c e)
    | inl h ↦
        rw (h, level_two)
          (if_all (λ (r : Handled). IsPaced r.0) (t.main_tab == 2) (λ _. action_signals-IsPaced e)
            (λ _. message_list-IsPaced e))
  ]

  level_one-IsPaced : (e : Event) → IsPaced (level_one t e).0
  unfolding level_one
  level_one-IsPaced e = elim (Option-cases (playback_here t)) [
    | inr (c, h) ↦ rw (h, level_one) (playback_list-IsPaced c e)
    | inl h ↦
        rw (h, level_one)
          (if_all (λ (r : Handled). IsPaced r.0) (t.main_tab == 2)
            (λ _. action_list-IsPaced fp t v e) (λ _. sub_tabs-IsPaced e))
  ]

  navigate-IsPaced : (e : Event) → IsPaced (navigate fp t e).0
  unfolding navigate
  navigate-IsPaced e =
      let P : Handled → Type 0 = λ r. IsPaced r.0 in
      if_all P (t.nav_level == 3) (λ _. signal_list-IsPaced e)
        λ _.
          if_all P (t.nav_level == 2) (λ _. level_two-IsPaced e)
            λ _. if_all P (t.nav_level == 1) (λ _. level_one-IsPaced e) (λ _. main_tabs-IsPaced e)

  no_mode-IsPaced : (e : Event) → IsPaced (no_mode fp t e).0
  unfolding no_mode
  no_mode-IsPaced e = elim (Option-cases (shortcut t e)) [
    | inl h ↦ rw (h, no_mode) (navigate-IsPaced e)
    | inr (t', h) ↦ rw (h, no_mode) (let q = shortcut-IsPaced e in rw h at q)
  ]

-- Every event keeps the interval above zero behind its entry, and every periodic or sin action that the
-- interface asks for has an interval, and a sin period, above zero.
pub handle-IsPaced : (fp : Ieee) (t : Tui) (e : Event) → IsPaced t → IsPaced (handle fp t e).0
unfolding handle
handle-IsPaced fp t e v =
    let P : Handled → Type 0 = λ r. IsPaced r.0 in
    if_all P t.actions_editing (λ _. actions_edit-IsPaced fp t v e)
      λ _.
        if_all P (not (is_no_step t.periodic_step)) (λ _. periodic-IsPaced fp t v e)
          λ _.
            if_all P t.send_editing (λ _. send_edit-IsPaced fp t v e)
              λ _.
                if_all P t.trace_searching (λ _. trace_search-IsPaced fp t v e)
                  λ _. no_mode-IsPaced fp t v e
