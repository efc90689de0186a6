-- ===== src/Screen/Replay.antt =====
-- src/gui/TuiDataFrameSet.cpp, lines 1229-1331: the views of the playback and the model tab.
use caneo.Common.Ieee.{Double, Ieee}
use caneo.Playback.{Playback, message_snapshot}
use caneo.Tui.{Tui}
use caneo.Screen.{
  green, red, yellow, bold, dim, inverted, focus, center, frame, vscroll_indicator, flex, color,
  width, Element, text, separator, hbox, vbox, ◌|>◌, lit, indexed, when, cursor_mark,
}
use caneo.Common.{
  ℕ, ◌+◌, Bool, ◌&&◌, Option, none, some, List, [], ◌∷◌, ◌++◌, map, leb, ◌==◌, if◌then◌else◌,
  get_elem?, any, is_empty,
}
use caneo.Common.Text.{Text}
use caneo.Common.OrderedMap.{nat_key, text_key, pair_key}

check_mark : Bool → Text
unfolding lit
check_mark on = if on then lit "[✓]" else lit "[ ]"

-- The row "Alle Messages".
unfoldable pub all_row : Tui → List (Text × Bool) → Element
unfolding check_mark cursor_mark lit
all_row t msgs =
    let any_on = any (λ p. p.1) msgs in
    let sel = t.playback_msg_cursor == 0 in
    let row = hbox (
      text (cursor_mark sel)
      ∷ (text (check_mark any_on ++ lit " ") |> color (if any_on then green else red))
      ∷ (text (lit "Alle Messages") |> bold)
      ∷ []) in
    if sel then row |> inverted |> focus else row

unfoldable pub filter_row : Tui → ℕ → Text × Bool → Element
unfolding check_mark cursor_mark lit
filter_row t i msg =
    let sel = t.playback_msg_cursor == i + 1 in
    let row = hbox (
      text (cursor_mark sel)
      ∷ (text (check_mark msg.1 ++ lit " ") |> color (if msg.1 then green else red))
      ∷ text msg.0
      ∷ []) in
    if sel then row |> inverted |> focus else row

unfoldable pub filter_view : Tui → Playback → Text → Element
unfolding message_snapshot all_row filter_row indexed lit
filter_view t c iface =
    let msgs = message_snapshot c iface in
    vbox (
      hbox ((text (lit "◀ ") |> dim) ∷ (text iface |> bold) ∷ [])
      ∷ separator
      ∷ (vbox (all_row t msgs ∷ separator ∷ indexed (filter_row t) 0 msgs)
          |> vscroll_indicator
          |> frame)
      ∷ separator
      ∷ (hbox (
            (text (lit "[Enter]") |> bold)
            ∷ text (lit " aktivieren / deaktivieren  ")
            ∷ (text (lit "[←]") |> bold)
            ∷ text (lit " zurück")
            ∷ [])
          |> dim)
      ∷ [])

unfoldable pub interface_row : Tui → ℕ → Text × Bool → Element
unfolding cursor_mark lit
interface_row t i state =
    let sel = i == t.playback_cursor in
    let status =
      if state.1
      then text (lit "  Running") |> color green
      else text (lit "  Paused ") |> color yellow in
    let row = hbox (text (cursor_mark sel) ∷ (text state.0 |> bold) ∷ status ∷ []) in
    when sel focus (when (sel && t.nav_level == 1) inverted row)

unfoldable pub interface_list : Tui → Playback → Element
unfolding interface_row indexed lit
interface_list t c = vbox (
    (vbox (indexed (interface_row t) 0 c.states) |> vscroll_indicator |> frame)
    ∷ separator
    ∷ (hbox (
          (text (lit "[Enter]") |> bold)
          ∷ text (lit " starten / pausieren  ")
          ∷ (text (lit "[→]") |> bold)
          ∷ text (lit " Messages filtern")
          ∷ [])
        |> dim)
    ∷ [])

-- The interface whose messages are filtered.
pub filtered : Tui → Playback → Option (Text × Bool)
filtered t c = if leb 2 t.nav_level then get_elem? c.states t.playback_cursor else none

unfoldable pub playing_view : Tui → Playback → Element
unfolding filtered filter_view interface_list lit
playing_view t c =
    if is_empty c.states
    then text (lit "No interfaces.") |> dim |> center
    else elim (filtered t c) [ some p ↦ filter_view t c p.0 | none ↦ interface_list t c ]

unfoldable pub render_playback : Tui → Element
unfolding playing_view lit
render_playback t = elim t.playback [
  | none ↦ text (lit "No playback active.") |> dim |> center
  | some c ↦ playing_view t c
]

unfoldable pub output_row : Ieee → Text × Double → Element
output_row fp p = hbox ((text p.0 |> flex) ∷ (text (fp.format_g p.1) |> width 24) ∷ [])

unfoldable pub render_model : Ieee → Tui → Element
unfolding output_row lit
render_model fp t =
    if is_empty t.model_outputs
    then text (lit "Noch keine Modell-Ausgaben.") |> dim |> center
    else vbox (
        hbox
          ((text (lit "Variable") |> bold |> flex) ∷ (text (lit "Wert") |> bold |> width 24) ∷ [])
        ∷ separator
        ∷ map (output_row fp) t.model_outputs)
