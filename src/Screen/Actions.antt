-- ===== src/Screen/Actions.antt =====
-- src/gui/TuiDataFrameSet.cpp, lines 1073-1227: the view of the actions tab.
use caneo.Common.Ieee.{Ieee}
use caneo.Numerals.{format_id, to_string}
use caneo.Action.{ActionInfo}
use caneo.Send.{SendModel, SendMessage, encode}
use caneo.Tui.{Tui}
use caneo.Tui.Edit.{bytes_or_empty}
use caneo.Screen.{
  bold, dim, inverted, focus, center, frame, vscroll_indicator, nothing, Element, text, separator,
  hbox, vbox, ◌|>◌, lit, indexed, or_row, when, cursor_mark, pad_left, pad_right, hex_str,
  signal_row,
}
use caneo.Common.{
  ℕ, ◌+◌, ◌/◌, not, ◌&&◌, Option, none, some, List, [], ◌∷◌, ◌++◌, ltb, ◌==◌, if◌then◌else◌,
  get_elem?, is_empty,
}
use caneo.Common.Text.{Text, text_eq}
use caneo.Common.Int.{ℤ, pos, pos_part, ◌-ℤ◌}
use caneo.Common.OrderedMap.{nat_key, text_key, pair_key, lookup}

-- The loop that looks for the message of an action: the first with its id, and its place.
pub find_action_message : ℕ → ℕ → SendModel → Option (ℕ × SendMessage)
find_action_message id i [] = none
find_action_message id i (m ∷ ms) =
    if m.id == id then some (i, m) else find_action_message id (i + 1) ms

unfoldable pub action_header : ActionInfo → SendMessage → Element
unfolding lit format_id to_string
action_header info msg =
    text (
      lit "◀ ["
      ++ info.interface
      ++ lit "] "
      ++ format_id msg.id
      ++ lit "  "
      ++ msg.name
      ++ lit "  ("
      ++ info.type_name
      ++ lit ", "
      ++ to_string info.period
      ++ lit "ms interval)")
    |> bold

unfoldable pub sin_param_row : Tui → ℕ → Text × Text → Element
unfolding cursor_mark lit
sin_param_row t i field =
    let is_cur = i == t.actions_sig_cursor in
    let editing = is_cur && t.actions_editing in
    let val =
      if editing
      then hbox (text (lit "[") ∷ text t.actions_edit_buf ∷ text (lit "_]") ∷ []) |> inverted
      else text field.1 in
    let row = hbox (
      text (cursor_mark is_cur)
      ∷ (text field.0 |> (if is_cur then bold else nothing))
      ∷ val
      ∷ []) in
    when is_cur focus (when (is_cur && not editing && t.nav_level == 2) inverted row)

unfoldable pub sin_fields : Ieee → ActionInfo → List (Text × Text)
unfolding lit to_string
sin_fields fp info =
    (lit "Amplitude: ", fp.format_g info.sin_amplitude)
    ∷ (lit "Period:    ", to_string info.sin_period_ms ++ lit " ms")
    ∷ (lit "Offset:    ", fp.format_g info.sin_offset)
    ∷ []

unfoldable pub sin_view : Ieee → Tui → ActionInfo → SendMessage → Element
unfolding action_header indexed sin_param_row sin_fields
sin_view fp t info msg = vbox (
    action_header info msg
    ∷ separator
    ∷ (vbox (indexed (sin_param_row t) 0 (sin_fields fp info)) |> frame)
    ∷ [])

unfoldable pub signals_view : Ieee → Tui → ActionInfo → SendModel → ℕ → SendMessage → Element
unfolding action_header indexed signal_row lit hex_str encode
signals_view fp t info model mi msg =
    let rows =
      indexed
        (signal_row fp (t.nav_level == 2) t.actions_sig_cursor t.actions_editing t.actions_edit_buf)
        0 msg.signals in
    vbox (
      action_header info msg
      ∷ separator
      ∷ (vbox (or_row rows (text (lit "(keine Signale)") |> dim)) |> vscroll_indicator |> frame)
      ∷ separator
      ∷ hbox (
          (text (lit "Raw: ") |> dim)
          ∷ (text (hex_str (bytes_or_empty (encode fp model mi))) |> bold)
          ∷ [])
      ∷ [])

unfoldable pub render_action_signals : Ieee → Tui → ActionInfo → Element
unfolding lookup find_action_message sin_view signals_view lit
render_action_signals fp t info = elim (lookup info.interface t.send_models) [
  | none ↦ text (lit "Kein SendModel für dieses Interface.") |> dim |> center
  | some model ↦ elim (find_action_message info.msg_id 0 model) [
    | none ↦ text (lit "Message nicht in DBC gefunden.") |> dim |> center
    | some (mi, msg) ↦
        if text_eq info.type_name (lit "Sin")
        then sin_view fp t info msg
        else signals_view fp t info model mi msg
  ]
]

-- Nanoseconds to milliseconds, towards zero: the clock is steady, so the difference is not negative.
ago_ms : ℤ → ℤ → ℕ
ago_ms now last_sent = pos_part (now -ℤ last_sent) / 1000000

-- The time of the last send; `now` is what the clock gives when the row is drawn.
last_str : Ieee → ℤ → ActionInfo → Text
unfolding ago_ms pad_left to_string lit
last_str fp now a =
    let ms = ago_ms now a.last_sent in
    if a.ever_sent
    then if ltb ms 1000
      then pad_left 4 (to_string (pos ms)) ++ lit "ms ago"
      else fp.format_tenths (fp.div (fp.of_long (pos ms)) fp.thousand) ++ lit "s ago"
    else lit "never"

unfoldable pub action_row : Ieee → Tui → (ℕ → ℤ) → ℕ → ActionInfo → Element
unfolding cursor_mark format_id pad_left pad_right last_str lit to_string
action_row fp t now i a =
    let sel = i == t.actions_cursor in
    let gap = lit "  " in
    let period_str =
      if a.is_periodic then pad_left 6 (to_string a.period) ++ lit "ms" else lit "      -  " in
    let label =
      cursor_mark sel
      ++ format_id a.msg_id
      ++ gap
      ++ pad_right 20 a.msg_name
      ++ gap
      ++ pad_right 8 a.type_name
      ++ gap
      ++ period_str
      ++ gap
      ++ a.interface
      ++ gap
      ++ last_str fp (now i) a
      ++ gap
      ++ (if a.paused then lit "[paused]" else []) in
    let row = text label in
    let marked =
      if sel && t.nav_level == 1
      then row |> bold |> inverted
      else if sel
      then row |> bold
      else row in
    when sel focus marked

unfoldable pub no_actions : Element
unfolding lit
no_actions = vbox (
    (text (lit "Keine Actions definiert.") |> dim |> center)
    ∷ separator
    ∷ (text (lit "[s] SingleAction  [p] PeriodicAction  im Send-Tab erstellen") |> dim |> center)
    ∷ [])

unfoldable pub action_table : Ieee → Tui → (ℕ → ℤ) → Element
unfolding action_row indexed pad_right lit
action_table fp t now =
    let gap = lit "  " in
    vbox (
      (text (
          gap
          ++ pad_right 5 (lit "ID")
          ++ gap
          ++ pad_right 20 (lit "Name")
          ++ gap
          ++ pad_right 8 (lit "Typ")
          ++ gap
          ++ pad_right 9 (lit "Periode")
          ++ gap
          ++ pad_right 6 (lit "Iface")
          ++ gap
          ++ lit "Letzter Send")
        |> dim)
      ∷ separator
      ∷ (vbox (indexed (action_row fp t now) 0 t.snapshot) |> vscroll_indicator |> frame)
      ∷ separator
      ∷ (hbox (
            (text (lit "[→]") |> bold)
            ∷ text (lit " Signale bearbeiten  ")
            ∷ (text (lit "[Space]") |> bold)
            ∷ text (lit " Pause/Resume  ")
            ∷ (text (lit "[Del]") |> bold)
            ∷ text (lit " Action löschen")
            ∷ [])
          |> dim)
      ∷ [])

-- The action whose signals are edited.
pub edited_action : Tui → Option ActionInfo
edited_action t = if t.nav_level == 2 then get_elem? t.snapshot t.actions_cursor else none

unfoldable pub render_actions : Ieee → Tui → (ℕ → ℤ) → Element
unfolding edited_action render_action_signals no_actions action_table
render_actions fp t now = elim (edited_action t) [
  | some info ↦ render_action_signals fp t info
  | none ↦ if is_empty t.snapshot then no_actions else action_table fp t now
]
