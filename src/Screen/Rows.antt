-- ===== src/Screen/Rows.antt =====
-- The focus in the views of the trace and the send tab: src/gui/TuiDataFrameSet.cpp, lines 797-1071.
use caneo.Screen.{text, ◌|>◌, lit, indexed, or_row, when, signal_row, focus, dim}
use caneo.Screen.Focus.{
  focus_count, total, total-append, total-or_row, total-map, within, total-indexed, count-when,
  count-make_tab_bar, count-signal_row,
}
use caneo.Screen.Trace.{
  decoded_line, make_frame_elem, frame_row, make_scrollable_rows, split_entries, search_bar,
  interface_tabs, active_set, all_frames_view, search_view, render_trace,
}
use caneo.Screen.Sending.{
  message_row, render_msg_list, single_button, periodic_row, type_rows, sin_rows, sin_field, chosen,
  signal_rows, render_sig_list, send_content, render_send, index_or_zero,
}
use caneo.Common.Ieee.{Ieee}
use caneo.Common.{
  if_all, ℕ, ◌+◌, ◌≤◌, ◌≡◌, refl, inl, inr, Bool, not, ◌||◌, List, [], ◌∷◌, ◌++◌, map, arith, leb,
  ◌==◌, if◌then◌else◌, Option-cases, length, is_empty,
}
use caneo.Tui.{selected_message, selected_send_model, clamp_index, Tui}
use caneo.Send.{SendMessage}
use caneo.Frame.{CanFrame, DataFrameSet}
use caneo.Common.OrderedMap.{nat_key, text_key, pair_key}

module _ (fp : Ieee) (t : Tui) where
  count-frame_row :
      (s : DataFrameSet) (i : ℕ) (e : ℕ × CanFrame)
      → focus_count (frame_row fp t s i e) ≤ (if i == t.trace_cursor then 1 else 0)
  unfolding focus_count frame_row make_frame_elem decoded_line
  count-frame_row s i e = ground (arith, total-map (decoded_line fp) e.1.decoded (λ d. refl))

  total-make_scrollable_rows :
      (s : DataFrameSet) (i : ℕ) (es : List (ℕ × CanFrame))
      → total (make_scrollable_rows fp t s i es) ≤ within t.trace_cursor i (length es)
  unfolding make_scrollable_rows
  total-make_scrollable_rows s i es =
      total-indexed (frame_row fp t s) t.trace_cursor i es (count-frame_row s)

  count-interface_tabs : focus_count (interface_tabs t) ≡ 0
  unfolding interface_tabs
  count-interface_tabs =
      count-make_tab_bar (map (λ p. p.0) t.sets) t.sub_tab_trace (t.nav_level == 1)

  all_frames_view_le : (s : DataFrameSet) → focus_count (all_frames_view fp t s) ≤ 1
  unfolding focus_count all_frames_view search_bar
  all_frames_view_le s =
      let rows = make_scrollable_rows fp t s 0 s.frames in
      ground (
        arith,
        count-interface_tabs,
        total-or_row rows (lit "(no frames)"),
        total-make_scrollable_rows s 0 s.frames,
      )

  search_view_le : (s : DataFrameSet) → focus_count (search_view fp t s) ≤ 1
  unfolding focus_count search_view search_bar
  search_view_le s =
      let r = split_entries t.trace_search_buf s.frames in
      ground (
        arith,
        count-interface_tabs,
        total-or_row (make_scrollable_rows fp t s 0 r.0) (lit "(keine Treffer)"),
        total-or_row (make_scrollable_rows fp t s (length r.0) r.1) (lit "(keine weiteren Frames)"),
        total-make_scrollable_rows s 0 r.0,
        total-make_scrollable_rows s (length r.0) r.1,
      )

  pub render_trace_le : focus_count (render_trace fp t) ≤ 1
  unfolding focus_count render_trace
  render_trace_le = elim (Option-cases (active_set t)) [
    | inl e ↦ rw (e, render_trace) (omega (arith, count-interface_tabs))
    | inr (s, e) ↦
        rw (e, render_trace)
          (if_all (λ x. focus_count x ≤ 1) (not t.trace_searching || is_empty t.trace_search_buf)
            (λ _. all_frames_view_le s) (λ _. search_view_le s))
  ]

  count-message_row :
      (i : ℕ) (m : SendMessage)
      → focus_count (message_row t i m) ≤ (if i == t.send_msg_cursor then 1 else 0)
  unfolding focus_count message_row
  count-message_row i m = ground arith

  count-single_button :
      (n : ℕ) → focus_count (single_button t n) ≡ (if t.send_sig_cursor == n then 1 else 0)
  unfolding focus_count single_button
  count-single_button n = ground arith

  count-periodic_row : (b : Bool) → focus_count (periodic_row t b) ≡ 0
  unfolding focus_count periodic_row
  count-periodic_row b = ground arith

  total-type_rows : (b : Bool) → total (type_rows t b) ≡ 0
  unfolding focus_count type_rows chosen
  total-type_rows b = ground arith

  total-sin_rows : (b : Bool) → total (sin_rows t b) ≡ 0
  unfolding focus_count sin_rows sin_field chosen
  total-sin_rows b = ground arith

  render_msg_list_le : (model : List SendMessage) → focus_count (render_msg_list t model) ≤ 1
  unfolding focus_count render_msg_list
  render_msg_list_le model = ground (
    arith,
    total-or_row (indexed (message_row t) 0 model) (lit "(no messages in DBC)"),
    total-indexed (message_row t) t.send_msg_cursor 0 model count-message_row,
  )

  -- The rows below those of the signals.
  buttons_le :
      (n : ℕ)
      → let cur = t.send_sig_cursor == n + 1 in
        total (
          text []
          ∷ single_button t n
          ∷ when cur focus (periodic_row t cur)
          ∷ (type_rows t cur ++ sin_rows t cur))
        ≤ within t.send_sig_cursor n 2
  unfolding focus_count
  buttons_le n =
      let cur = t.send_sig_cursor == n + 1 in
      rw
        (
          total-append (type_rows t cur) (sin_rows t cur),
          total-type_rows cur,
          total-sin_rows cur,
          count-single_button n,
          count-when cur focus (periodic_row t cur),
          count-periodic_row cur,
        )
        (ground arith)

  within_apart : (c n : ℕ) → within c 0 n + within c n 2 ≤ 1
  within_apart c n = ground arith

  total-signal_rows : (m : SendMessage) → total (signal_rows fp t m) ≤ 1
  unfolding signal_rows
  total-signal_rows m =
      let row = signal_row fp (t.nav_level == 3) t.send_sig_cursor t.send_editing t.send_edit_buf in
      let n = length m.signals in
      let cur = t.send_sig_cursor == n + 1 in
      omega (
        arith,
        total-append (or_row (indexed row 0 m.signals) (text (lit "(no signals)") |> dim)) (
            text []
            ∷ single_button t n
            ∷ when cur focus (periodic_row t cur)
            ∷ (type_rows t cur ++ sin_rows t cur)),
        total-or_row (indexed row 0 m.signals) (lit "(no signals)"),
        total-indexed row t.send_sig_cursor 0 m.signals (
            count-signal_row fp (t.nav_level == 3) t.send_sig_cursor t.send_editing
              t.send_edit_buf),
        buttons_le n,
        within_apart t.send_sig_cursor n,
      )

  render_sig_list_le : (model : List SendMessage) → focus_count (render_sig_list fp t model) ≤ 1
  unfolding focus_count render_sig_list
  render_sig_list_le model = elim (Option-cases (selected_message t model)) [
    | inl e ↦ rw (e, render_sig_list) (omega arith)
    | inr ((mi, m), e) ↦ rw (e, render_sig_list) (omega (arith, total-signal_rows m))
  ]

  send_content_le : focus_count (send_content fp t) ≤ 1
  unfolding focus_count send_content
  send_content_le = elim (Option-cases (selected_send_model t)) [
    | inl e ↦ rw (e, send_content) (omega arith)
    | inr (model, e) ↦
        rw (e, send_content)
          (if_all (λ x. focus_count x ≤ 1) (leb 3 t.nav_level) (λ _. render_sig_list_le model)
            (λ _. render_msg_list_le model))
  ]

  pub render_send_le : focus_count (render_send fp t) ≤ 1
  unfolding focus_count render_send
  render_send_le =
      let idx = index_or_zero (clamp_index t.sub_tab_send (length t.interfaces)) in
      omega (arith, count-make_tab_bar t.interfaces idx (t.nav_level == 1), send_content_le)
