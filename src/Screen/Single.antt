-- ===== src/Screen/Single.antt =====
-- At most one element of a screen has the focus: src/gui/TuiDataFrameSet.cpp, lines 797-1365.
use caneo.Screen.{Element, separator, lit, indexed, signal_row}
use caneo.Screen.Focus.{
  focus_count, total, total-or_row, total-map, total-indexed, count-make_tab_bar, count-signal_row,
}
use caneo.Screen.Actions.{
  action_header, sin_param_row, sin_fields, sin_view, signals_view, render_action_signals,
  action_row, no_actions, action_table, render_actions, find_action_message, edited_action,
}
use caneo.Screen.Replay.{
  all_row, filter_row, filter_view, interface_row, interface_list, playing_view, render_playback,
  output_row, render_model, filtered,
}
use caneo.Screen.Rows.{render_trace_le, render_send_le}
use caneo.Screen.Views.{tab_labels, title_bar, main_content, render}
use caneo.Common.Ieee.{Ieee}
use caneo.Common.{
  if_all, ℕ, ◌+◌, ◌-◌, ◌≤◌, ◌≡◌, refl, inl, inr, Bool, Option, List, ◌∷◌, arith, ◌==◌,
  if◌then◌else◌, Bool-cases, Option-cases, length, is_empty,
}
use caneo.Playback.{Playback, message_snapshot}
use caneo.Tui.{Tui}
use caneo.Send.{SendMessage}
use caneo.Action.{ActionInfo}
use caneo.Common.Text.{Text, text_eq}
use caneo.Common.Int.{ℤ}
use caneo.Common.OrderedMap.{nat_key, text_key, pair_key, lookup}

module _ (fp : Ieee) (t : Tui) where
  count-action_row :
      (now : ℕ → ℤ) (i : ℕ) (a : ActionInfo)
      → focus_count (action_row fp t now i a) ≤ (if i == t.actions_cursor then 1 else 0)
  unfolding focus_count action_row
  count-action_row now i a = ground arith

  count-sin_param_row :
      (i : ℕ) (f : Text × Text)
      → focus_count (sin_param_row t i f) ≤ (if i == t.actions_sig_cursor then 1 else 0)
  unfolding focus_count sin_param_row
  count-sin_param_row i f = ground arith

  count-filter_row :
      (i : ℕ) (m : Text × Bool)
      → focus_count (filter_row t i m) ≡ (if t.playback_msg_cursor == i + 1 then 1 else 0)
  unfolding focus_count filter_row
  count-filter_row i m = ground arith

  count-all_row :
      (ms : List (Text × Bool))
      → focus_count (all_row t ms) ≡ (if t.playback_msg_cursor == 0 then 1 else 0)
  unfolding focus_count all_row
  count-all_row ms = ground arith

  count-interface_row :
      (i : ℕ) (m : Text × Bool)
      → focus_count (interface_row t i m) ≤ (if i == t.playback_cursor then 1 else 0)
  unfolding focus_count interface_row
  count-interface_row i m = ground arith

  count-title_bar : (s : Option (Text × Bool)) → focus_count (title_bar s) ≡ 0
  unfolding focus_count title_bar
  count-title_bar s = ground arith

  sin_view_le : (a : ActionInfo) (m : SendMessage) → focus_count (sin_view fp t a m) ≤ 1
  unfolding focus_count sin_view action_header
  sin_view_le a m = ground (
    arith,
    total-indexed (sin_param_row t) t.actions_sig_cursor 0 (sin_fields fp a) count-sin_param_row,
  )

  signals_view_le :
      (a : ActionInfo) (model : List SendMessage) (mi : ℕ) (m : SendMessage)
      → focus_count (signals_view fp t a model mi m) ≤ 1
  unfolding focus_count signals_view action_header
  signals_view_le a model mi m =
      let row =
        signal_row fp (t.nav_level == 2) t.actions_sig_cursor t.actions_editing
          t.actions_edit_buf in
      ground (
        arith,
        total-or_row (indexed row 0 m.signals) (lit "(keine Signale)"),
        total-indexed row t.actions_sig_cursor 0 m.signals (
            count-signal_row fp (t.nav_level == 2) t.actions_sig_cursor t.actions_editing
              t.actions_edit_buf),
      )

  render_action_signals_le : (a : ActionInfo) → focus_count (render_action_signals fp t a) ≤ 1
  unfolding focus_count render_action_signals
  render_action_signals_le a = elim (Option-cases (lookup a.interface t.send_models)) [
    | inl e ↦ rw (e, render_action_signals) (omega arith)
    | inr (model, e) ↦ elim (Option-cases (find_action_message a.msg_id 0 model)) [
      | inl k ↦ rw (e, k, render_action_signals) (omega arith)
      | inr ((mi, m), k) ↦
          rw (e, k, render_action_signals)
            (if_all (λ x. focus_count x ≤ 1) (text_eq a.type_name (lit "Sin"))
              (λ _. sin_view_le a m) (λ _. signals_view_le a model mi m))
    ]
  ]

  action_table_le : (now : ℕ → ℤ) → focus_count (action_table fp t now) ≤ 1
  unfolding focus_count action_table
  action_table_le now = ground (
    arith,
    total-indexed (action_row fp t now) t.actions_cursor 0 t.snapshot (count-action_row now),
  )

  no_actions_le : focus_count no_actions ≤ 1
  unfolding focus_count no_actions
  no_actions_le = omega arith

  render_actions_le : (now : ℕ → ℤ) → focus_count (render_actions fp t now) ≤ 1
  unfolding focus_count render_actions
  render_actions_le now = elim (Option-cases (edited_action t)) [
    | inl e ↦
        rw (e, render_actions)
          (if_all (λ x. focus_count x ≤ 1) (is_empty t.snapshot) (λ _. no_actions_le)
            (λ _. action_table_le now))
    | inr (a, e) ↦ rw (e, render_actions) (render_action_signals_le a)
  ]

  filter_rows_le :
      (ms : List (Text × Bool))
      → total (indexed (filter_row t) 0 ms) ≤ (if t.playback_msg_cursor == 0 then 0 else 1)
  filter_rows_le ms = elim (Bool-cases (t.playback_msg_cursor == 0)) [
    | inl e ↦ ground (
      arith,
      total-indexed (filter_row t) (length ms) 0 ms (λ i m. ground (arith, count-filter_row i m)),
    )
    | inr e ↦ ground (
      arith,
      total-indexed (filter_row t) (t.playback_msg_cursor - 1) 0 ms
          (λ i m. ground (arith, count-filter_row i m)),
    )
  ]

  all_and_filter_rows_le :
      (ms : List (Text × Bool)) → total (all_row t ms ∷ separator ∷ indexed (filter_row t) 0 ms) ≤ 1
  unfolding focus_count
  all_and_filter_rows_le ms = ground (arith, count-all_row ms, filter_rows_le ms)

  filter_view_le : (c : Playback) (iface : Text) → focus_count (filter_view t c iface) ≤ 1
  unfolding focus_count filter_view
  filter_view_le c iface = omega (arith, all_and_filter_rows_le (message_snapshot c iface))

  interface_list_le : (c : Playback) → focus_count (interface_list t c) ≤ 1
  unfolding focus_count interface_list
  interface_list_le c =
      ground
        (arith, total-indexed (interface_row t) t.playback_cursor 0 c.states count-interface_row)

  playing_view_le : (c : Playback) → focus_count (playing_view t c) ≤ 1
  unfolding focus_count playing_view
  playing_view_le c = elim (Option-cases (filtered t c)) [
    | inl e ↦
        rw (e, playing_view)
          (if_all (λ x. focus_count x ≤ 1) (is_empty c.states) (λ _. omega arith)
            (λ _. interface_list_le c))
    | inr (p, e) ↦
        rw (e, playing_view)
          (if_all (λ x. focus_count x ≤ 1) (is_empty c.states) (λ _. omega arith)
            (λ _. filter_view_le c p.0))
  ]

  render_playback_le : focus_count (render_playback t) ≤ 1
  unfolding focus_count render_playback
  render_playback_le = elim (Option-cases t.playback) [
    | inl e ↦ rw (e, render_playback) (omega arith)
    | inr (c, e) ↦ rw (e, render_playback) (playing_view_le c)
  ]

  render_model_le : focus_count (render_model fp t) ≤ 1
  unfolding focus_count render_model output_row
  render_model_le = ground (arith, total-map (output_row fp) t.model_outputs (λ p. refl))

  main_content_le : (now : ℕ → ℤ) → focus_count (main_content fp t now) ≤ 1
  unfolding main_content
  main_content_le now =
      let P : Element → Type 0 = λ x. focus_count x ≤ 1 in
      if_all P (t.main_tab == 0) (λ _. render_trace_le fp t)
        λ _.
          if_all P (t.main_tab == 1) (λ _. render_send_le fp t)
            λ _.
              if_all P (t.main_tab == 2) (λ _. render_actions_le now)
                λ _.
                  if_all P (t.main_tab == 3)
                    (λ _.
                      if_all P t.model_tab_enabled (λ _. render_model_le) (λ _. render_playback_le))
                    (λ _. render_playback_le)

-- Whatever state the interface is in, the window that `render` draws has at most one focused element:
-- no view marks two rows, the two lists of a search included.
pub one_focus :
    (fp : Ieee) (t : Tui) (now : ℕ → ℤ) (status : Option (Text × Bool))
    → focus_count (render fp t now status) ≤ 1
unfolding focus_count render
one_focus fp t now status = omega (
  arith,
  count-title_bar fp t status,
  count-make_tab_bar (tab_labels t) t.main_tab (t.nav_level == 0),
  main_content_le fp t now,
)
