-- ===== src/Screen/Views.antt =====
-- src/gui/TuiDataFrameSet.cpp, lines 1333-1365: the whole window. The status indicator is what
-- set_status_indicator was given: nothing, or the label with what connected_fn returns.
use caneo.Common.Ieee.{Ieee}
use caneo.Tui.{Tui, is_some}
use caneo.Screen.Trace.{render_trace}
use caneo.Screen.Sending.{render_send}
use caneo.Screen.Actions.{render_actions}
use caneo.Screen.Replay.{render_playback, render_model}
use caneo.Screen.{
  green, red, dim, color, Element, text, separator, filler, window, hbox, vbox, ◌|>◌, lit,
  make_tab_bar,
}
use caneo.Common.{ℕ, Bool, Option, none, some, List, [], ◌∷◌, ◌++◌, ◌==◌, if◌then◌else◌}
use caneo.Common.Text.{Text}
use caneo.Common.Int.{ℤ}
use caneo.Common.OrderedMap.{nat_key, text_key, pair_key}

unfoldable pub tab_labels : Tui → List Text
unfolding lit
tab_labels t =
    (lit "Trace" ∷ lit "Send" ∷ lit "Actions" ∷ [])
    ++ (if t.model_tab_enabled then lit "Model" ∷ [] else [])
    ++ (if is_some t.playback then lit "Playback" ∷ [] else [])

unfoldable pub main_content : Ieee → Tui → (ℕ → ℤ) → Element
unfolding render_trace render_send render_actions render_playback render_model
main_content fp t now =
    if t.main_tab == 0
    then render_trace fp t
    else if t.main_tab == 1
    then render_send fp t
    else if t.main_tab == 2
    then render_actions fp t now
    else if t.main_tab == 3
    then if t.model_tab_enabled then render_model fp t else render_playback t
    else render_playback t

unfoldable pub title_bar : Option (Text × Bool) → Element
unfolding lit
title_bar none = text (lit " caneo ")
title_bar (some (status_label, connected)) =
    let dot = text (lit "● ") |> color (if connected then green else red) in
    let label = text status_label in
    let indicator =
      if connected
      then hbox (dot ∷ label ∷ text (lit " ") ∷ [])
      else hbox (dot ∷ label ∷ (text (lit " (reconnecting...) ") |> dim) ∷ []) in
    hbox (text (lit " caneo ") ∷ filler ∷ indicator ∷ [])

unfoldable pub render : Ieee → Tui → (ℕ → ℤ) → Option (Text × Bool) → Element
unfolding tab_labels make_tab_bar main_content title_bar
render fp t now status = window (title_bar status) (
    vbox (
      make_tab_bar (tab_labels t) t.main_tab (t.nav_level == 0)
      ∷ separator
      ∷ main_content fp t now
      ∷ []))
