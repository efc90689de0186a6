-- ===== src/Tui/Create.antt =====
-- The three creators of actions in src/gui/TuiDataFrameSet.cpp, lines 83-148.
use caneo.Common.{ℕ, none, some, length}
use caneo.Common.Int.{ℤ}
use caneo.Common.OrderedMap.{nat_key, text_key, pair_key}
use caneo.Common.Ieee.{Double, Ieee}
use caneo.Send.{SendModel, SendMessage, encode}
use caneo.Tui.{
  Tui, clamp_index, selected_send_iface, selected_send_model, selected_message, add_post,
  single_action, periodic_action, sin_action,
}
use caneo.Tui.Edit.{bytes_or_empty}

-- What all three begin with: the model of the interface and the message under the cursor, if any.
unfoldable pub with_message : Tui → (SendModel → ℕ → SendMessage → Tui) → Tui
unfolding selected_send_model selected_message
with_message t k = elim (selected_send_model t) [
  | none ↦ t
  | some model ↦ elim (selected_message t model) [ none ↦ t | some (mi, m) ↦ k model mi m ]
]

unfoldable pub create_single_action : Ieee → Tui → Tui
unfolding with_message selected_send_iface encode
create_single_action fp t = with_message t λ model mi m.
    add_post
      (single_action (selected_send_iface t) m.id m.name (bytes_or_empty (encode fp model mi))) t

unfoldable pub create_periodic_action : Ieee → Tui → ℤ → Tui
unfolding with_message selected_send_iface encode
create_periodic_action fp t period = with_message t λ model mi m.
    add_post
      (periodic_action (selected_send_iface t) m.id m.name (bytes_or_empty (encode fp model mi))
        period)
      t

unfoldable pub create_sin_action : Tui → Double → ℤ → Double → Tui
unfolding with_message selected_send_iface clamp_index
create_sin_action t amplitude sin_period offset = with_message t λ model mi m.
    elim (clamp_index t.send_sig_cursor (length m.signals)) [
      | none ↦ t
      | some si ↦
          add_post
            (sin_action (selected_send_iface t) m.id m.name t.periodic_interval_ms mi si amplitude
              sin_period offset)
            t
    ]
