-- ===== src/SendWindow/Frames.antt =====
-- src/gui/SendWindow.cpp, lines 32-93 and 95-264: one frame of the send window.
use caneo.Common.Ieee.{Ieee}
use caneo.Preset.{◌>>◌}
use caneo.Send.{SendMessage}
use caneo.SendWindow.{
  IfaceData, SendWindow, open_popup, edit_all, EditInput, Edited, send_once, send_periodic,
  sin_part,
}
use caneo.Common.{ℕ, ◌+◌, Bool, not, Option, none, some, List, [], ◌∷◌, if◌then◌else◌, get_elem?}
use caneo.Common.Text.{Text}
use caneo.Common.Int.{ℤ}
use caneo.Common.OrderedMap.{nat_key, text_key, pair_key}

-- The message that the indices name, if both are in range.
unfoldable pub edited : SendWindow → Option Edited
edited w = elim w.popup_iface [
  | none ↦ none
  | some i ↦ elim w.popup_msg [
    | none ↦ none
    | some j ↦ elim (get_elem? w.ifaces i) [
      | none ↦ none
      | some iface ↦ elim (get_elem? iface.model j) [
        | none ↦ none
        | some msg ↦ some (record { iface = i; index = j; name = iface.name; msg = msg })
      ]
    ]
  ]
]

module _ (fp : Ieee) (atoi : Text → ℤ) (now : ℤ) where
  -- The inputs of the table.
  unfoldable pub edit_table : EditInput → Edited → SendWindow → Option SendWindow
  unfolding edit_all
  edit_table inp e w =
      if not inp.table
      then some w
      else edit_all inp.values 0 e.msg.signals w.editing_values >> λ vs.
          some (record w { editing_values = vs })

  -- The window behind its title bar.
  unfoldable pub edit_content : EditInput → Edited → SendWindow → Option SendWindow
  unfolding edit_table send_once send_periodic sin_part
  edit_content inp e w = edit_table inp e w >> λ w1. send_once fp atoi now inp e w1 >> λ w2.
      send_periodic fp atoi now inp e w2 >> λ w3.
      sin_part fp atoi now inp e (record w3 { period_buf = inp.period w3.period_buf })

  unfoldable pub shown_window : EditInput → Edited → SendWindow → Option SendWindow
  unfolding edit_content
  shown_window inp e w =
      let w1 = record w { popup_open = inp.still_open } in
      if not inp.begun then some w1 else edit_content inp e w1

  unfoldable pub render_edit_window : EditInput → SendWindow → Option SendWindow
  unfolding edited shown_window
  render_edit_window inp w =
      if not w.popup_open
      then some w
      else elim (edited w) [ none ↦ some w | some e ↦ shown_window inp e w ]

  -- Which rows of the tables of messages are clicked; a table that is not open has none.
  abbrev pub Clicks : Type 0
  Clicks = ℕ → ℕ → Bool

  unfoldable pub click_messages : Clicks → ℕ → ℕ → List SendMessage → SendWindow → SendWindow
  unfolding open_popup
  click_messages clicks i j [] w = w
  click_messages clicks i j (m ∷ ms) w =
      click_messages clicks i (j + 1) ms (if clicks i j then open_popup w i j else w)

  unfoldable pub click_ifaces : Clicks → ℕ → List IfaceData → SendWindow → SendWindow
  unfolding click_messages
  click_ifaces clicks i [] w = w
  click_ifaces clicks i (iface ∷ rest) w =
      click_ifaces clicks (i + 1) rest (click_messages clicks i 0 iface.model w)

  -- SendWindow::render; nothing where it reads behind the end of a vector.
  unfoldable pub render_send_window : Clicks → EditInput → SendWindow → Option SendWindow
  unfolding click_ifaces render_edit_window
  render_send_window clicks inp w = render_edit_window inp (click_ifaces clicks 0 w.ifaces w)
