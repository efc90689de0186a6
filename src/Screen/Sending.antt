-- ===== src/Screen/Sending.antt =====
-- src/gui/TuiDataFrameSet.cpp, lines 915-1071: the view of the send tab.
use caneo.Common.Ieee.{Ieee}
use caneo.Numerals.{format_id, to_string}
use caneo.Send.{SendModel, SendMessage, encode}
use caneo.Screen.{
  bold, dim, inverted, focus, center, frame, vscroll_indicator, Element, text, separator, hbox,
  vbox, ◌|>◌, lit, indexed, or_row, when, cursor_mark, make_tab_bar, hex_str, signal_row,
}
use caneo.Tui.{
  Tui, clamp_index, selected_send_model, selected_message, PeriodicStep, period_step, type_select,
  sin_amplitude_step, sin_period_step, sin_offset_step, sin_ready,
}
use caneo.Tui.Handle.{is_no_step}
use caneo.Tui.Edit.{bytes_or_empty}
use caneo.Common.{
  ℕ, ◌+◌, Bool, true, false, not, ◌&&◌, Option, none, some, List, [], ◌∷◌, ◌++◌, leb, ◌==◌,
  if◌then◌else◌, length, is_empty,
}
use caneo.Common.Text.{Text}
use caneo.Common.OrderedMap.{nat_key, text_key, pair_key}

unfoldable pub message_row : Tui → ℕ → SendMessage → Element
unfolding cursor_mark format_id lit
message_row t i m =
    let sel = i == t.send_msg_cursor in
    let row = text (cursor_mark sel ++ format_id m.id ++ lit "  " ++ m.name) in
    let marked =
      if sel && t.nav_level == 2
      then row |> bold |> inverted
      else if sel
      then row |> bold
      else row in
    when sel focus marked

unfoldable pub render_msg_list : Tui → SendModel → Element
unfolding message_row indexed lit
render_msg_list t model =
    vbox (or_row (indexed (message_row t) 0 model) (text (lit "(no messages in DBC)") |> dim))
    |> vscroll_indicator
    |> frame

unfoldable pub single_button : Tui → ℕ → Element
unfolding cursor_mark lit
single_button t sig_count =
    let cur = t.send_sig_cursor == sig_count in
    let row = hbox (text (cursor_mark cur) ∷ text (lit "[ Single Action ]") ∷ []) in
    when cur focus (if cur && t.nav_level == 3 then row |> bold |> inverted else row)

is_period_step : PeriodicStep → Bool
is_period_step period_step = true
is_period_step _ = false

is_type_select : PeriodicStep → Bool
is_type_select type_select = true
is_type_select _ = false

-- The number of a sin field in the order of the enumeration, 3 for SinReady.
sin_stage : PeriodicStep → Option ℕ
sin_stage sin_amplitude_step = some 0
sin_stage sin_period_step = some 1
sin_stage sin_offset_step = some 2
sin_stage sin_ready = some 3
sin_stage _ = none

unfoldable pub periodic_row : Tui → Bool → Element
unfolding is_period_step is_no_step cursor_mark lit to_string
periodic_row t cur =
    if cur && is_period_step t.periodic_step
    then hbox (
        text (lit "▶ [ Periodic Action ]   Interval: [")
        ∷ text t.periodic_interval_buf
        ∷ text (lit "_] ms")
        ∷ [])
      |> bold
      |> inverted
    else if cur && not (is_no_step t.periodic_step)
    then hbox (
        text (lit "▶ [ Periodic Action ]   Interval: ")
        ∷ text (to_string t.periodic_interval_ms ++ lit " ms")
        ∷ [])
      |> bold
      |> inverted
    else let row = hbox (text (cursor_mark cur) ∷ text (lit "[ Periodic Action ]") ∷ []) in
      if cur && t.nav_level == 3 then row |> bold |> inverted else row

-- `x | bold | inverted` or `x | dim`
unfoldable pub chosen : Bool → Element → Element
chosen b e = if b then e |> bold |> inverted else e |> dim

unfoldable pub type_rows : Tui → Bool → List Element
unfolding is_type_select chosen cursor_mark lit
type_rows t cur =
    let on_const = t.periodic_type_cursor == 0 in
    if cur && is_type_select t.periodic_step
    then hbox (
        text (lit "    ")
        ∷ text (cursor_mark on_const)
        ∷ chosen on_const (text (lit "[Constant]"))
        ∷ text (lit "   ")
        ∷ text (cursor_mark (not on_const))
        ∷ chosen (not on_const) (text (lit "[Sin]"))
        ∷ [])
      ∷ []
    else []

-- The lambda `field`.
unfoldable pub sin_field : Text → Text → Text → Bool → Element
unfolding lit
sin_field label buf unit active =
    let val =
      if active
      then hbox (text (lit "[") ∷ text buf ∷ text (lit "_]") ∷ [])
      else text (if is_empty buf then lit "-" else buf) in
    let row =
      hbox (text (lit "    ") ∷ (text label |> dim) ∷ val ∷ (text (lit " " ++ unit) |> dim) ∷ []) in
    if active then row |> bold |> inverted else row

unfoldable pub sin_rows : Tui → Bool → List Element
unfolding sin_stage sin_field chosen lit
sin_rows t cur = elim (sin_stage t.periodic_step) [
  | none ↦ []
  | some k ↦
      if cur
      then sin_field (lit "Amplitude: ") t.sin_amplitude_buf [] (k == 0)
        ∷ sin_field (lit "Period:    ") t.sin_period_buf (lit "ms") (k == 1)
        ∷ sin_field (lit "Offset:    ") t.sin_offset_buf [] (k == 2)
        ∷ chosen (k == 3) (hbox (text (lit "    ") ∷ text (lit "[ Start ]") ∷ []))
        ∷ []
      else []
]

-- Everything below the signals' header: the rows of the signals and of the two buttons.
unfoldable pub signal_rows : Ieee → Tui → SendMessage → List Element
unfolding signal_row indexed single_button periodic_row type_rows sin_rows lit
signal_rows fp t msg =
    let count = length msg.signals in
    let cur = t.send_sig_cursor == count + 1 in
    or_row
      (indexed (signal_row fp (t.nav_level == 3) t.send_sig_cursor t.send_editing t.send_edit_buf) 0
        msg.signals)
      (text (lit "(no signals)") |> dim)
    ++ (text []
        ∷ single_button t count
        ∷ when cur focus (periodic_row t cur)
        ∷ (type_rows t cur ++ sin_rows t cur))

unfoldable pub render_sig_list : Ieee → Tui → SendModel → Element
unfolding selected_message signal_rows encode lit format_id hex_str
render_sig_list fp t model = elim (selected_message t model) [
  | none ↦ text (lit "(no message selected)") |> dim
  | some (mi, msg) ↦ vbox (
      (text (lit "◀ " ++ format_id msg.id ++ lit "  " ++ msg.name) |> bold)
      ∷ separator
      ∷ (vbox (signal_rows fp t msg) |> vscroll_indicator |> frame)
      ∷ separator
      ∷ hbox (
          (text (lit "Raw: ") |> dim)
          ∷ (text (hex_str (bytes_or_empty (encode fp model mi))) |> bold)
          ∷ [])
      ∷ separator
      ∷ (hbox (
            (text (lit "[1]") |> bold)
            ∷ text (lit " Single Action   ")
            ∷ (text (lit "[2]") |> bold)
            ∷ text (lit " Periodic Action")
            ∷ [])
          |> dim)
      ∷ [])
]

-- `count > 0 ? std::min(sub_tab_send_, count - 1) : 0`
pub index_or_zero : Option ℕ → ℕ
index_or_zero none = 0
index_or_zero (some i) = i

unfoldable pub send_content : Ieee → Tui → Element
unfolding selected_send_model render_sig_list render_msg_list lit
send_content fp t = elim (selected_send_model t) [
  | none ↦ text (lit "No DBC configured for this interface.") |> dim |> center
  | some model ↦ if leb 3 t.nav_level then render_sig_list fp t model else render_msg_list t model
]

unfoldable pub render_send : Ieee → Tui → Element
unfolding make_tab_bar clamp_index index_or_zero send_content
render_send fp t =
    let idx = index_or_zero (clamp_index t.sub_tab_send (length t.interfaces)) in
    vbox (make_tab_bar t.interfaces idx (t.nav_level == 1) ∷ separator ∷ send_content fp t ∷ [])
