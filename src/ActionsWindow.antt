-- ===== src/ActionsWindow.antt =====
-- src/gui/ActionsWindow.cpp: the table of the actions and the window that edits one. As in the send window, a frame is a
-- function of the state and of what ImGui returns.
pub mod Edits
pub mod Laws
mod Tests
use caneo.Common.Ieee.{Double, Ieee}
use caneo.Action.{ActionInfo}
use caneo.Preset.{bytes_of, ◌>>◌}
use caneo.Send.{SendModel, SendMessage, encode}
use caneo.SendWindow.{IfaceData, values_of, at_least_one, edit_all, store_values}
use caneo.Tui.{Post, remove_action, toggle_pause, update_sin_param, update_payload}
use caneo.Common.{
  ℕ, ◌+◌, ◌-◌, ◌%◌, ◌^◌, Bool, true, false, not, ◌&&◌, ◌||◌, Option, none, some, List, [], ◌∷◌,
  ◌++◌, ltb, ◌==◌, if◌then◌else◌, length, get_elem?, set, is_empty,
}
use caneo.Common.Text.{Text, codes, text_eq}
use caneo.Common.Int.{ℤ, pos, negsuc}

-- `ifaces` are those of the send window, which both windows share; `posts` are the calls of the handler.
pub record ActionsWindow : Type 0 where
  pub ifaces : List IfaceData
  pub edit_open : Bool
  pub edit_action_idx : ℕ
  pub edit_values : List Double
  pub edit_amplitude : Double
  pub edit_offset : Double
  pub edit_sin_period : ℤ
  pub posts : List Post

unfoldable pub new_actions_window : List IfaceData → ActionsWindow
new_actions_window ifaces = record {
  ifaces = ifaces;
  edit_open = false;
  edit_action_idx = 0;
  edit_values = [];
  edit_amplitude = 0;
  edit_offset = 0;
  edit_sin_period = pos 1000;
  posts = [];
}

-- The model of an interface, at its index.
unfoldable pub find_model : ℕ → Text → List IfaceData → Option (ℕ × IfaceData)
find_model i name [] = none
find_model i name (d ∷ ds) =
    let rest = find_model (i + 1) name ds in if text_eq d.name name then some (i, d) else rest

-- The first message with an identifier, at its index.
unfoldable pub find_msg : ℕ → ℕ → SendModel → Option (ℕ × SendMessage)
find_msg j id [] = none
find_msg j id (m ∷ ms) =
    let rest = find_msg (j + 1) id ms in if m.id == id then some (j, m) else rest

-- The model and the message of an action.
pub record Target : Type 0 where
  pub iface : ℕ
  pub data_of : IfaceData
  pub index : ℕ
  pub msg : SendMessage

unfoldable pub found_target : List IfaceData → ActionInfo → Option Target
unfolding find_model find_msg
found_target ifaces info = find_model 0 info.interface ifaces >> λ d.
    find_msg 0 info.msg_id d.1.model >> λ m.
    some (record { iface = d.0; data_of = d.1; index = m.0; msg = m.1 })

unfoldable pub is_sin_action : ActionInfo → Bool
is_sin_action info = text_eq info.type_name (codes "Sin")

-- `(int)` of a `long`.
unfoldable pub to_int : ℤ → ℤ
to_int n =
    let r : ℕ = elim n [ pos k ↦ k % 2 ^ 32 | negsuc k ↦ 2 ^ 32 - 1 - k % 2 ^ 32 ] in
    if ltb r (2 ^ 31) then pos r else negsuc (2 ^ 32 - 1 - r)

-- The values of the action's message, none where it has no model or no message.
unfoldable pub target_values : Option Target → List Double
unfolding values_of
target_values none = []
target_values (some t) = values_of (some t.msg)

unfoldable pub open_edit : ActionInfo → ActionsWindow → ActionsWindow
unfolding is_sin_action found_target target_values to_int
open_edit info w =
    let opened = record w { edit_action_idx = info.idx; edit_open = true } in
    if is_sin_action info
    then record opened {
      edit_amplitude = info.sin_amplitude;
      edit_offset = info.sin_offset;
      edit_sin_period = to_int info.sin_period_ms;
    }
    else record opened { edit_values = target_values (found_target w.ifaces info) }

-- What ImGui returns in one frame: the clicks in the table, by the index of an action, and the edit window.
pub record ActionsInput : Type 0 where
  pub table : Bool
  pub select : ℕ → Bool
  pub toggle : ℕ → Bool
  pub delete : ℕ → Bool
  pub begun : Bool
  pub still_open : Bool
  pub amplitude : Double → Double
  pub offset : Double → Double
  pub sin_period : ℤ → ℤ
  pub apply : Bool
  pub signal_table : Bool
  pub values : ℕ → Double → Double
  pub update : Bool

abbrev pub post_call : Post → ActionsWindow → ActionsWindow
post_call p w = record w { posts = w.posts ++ (p ∷ []) }

module _ (fp : Ieee) (inp : ActionsInput) where
  unfoldable pub apply_sin : ActionsWindow → ActionsWindow
  unfolding at_least_one
  apply_sin w =
      let w1 = record w {
        edit_amplitude = inp.amplitude w.edit_amplitude;
        edit_offset = inp.offset w.edit_offset;
        edit_sin_period = at_least_one (inp.sin_period w.edit_sin_period);
      } in
      let i = w1.edit_action_idx in
      if inp.apply
      then post_call (update_sin_param i 1 (fp.of_long w1.edit_sin_period)) (
          post_call (update_sin_param i 2 w1.edit_offset)
            (post_call (update_sin_param i 0 w1.edit_amplitude) w1))
      else w1

  -- The range is that of the first signal of the message; nothing where it has none.
  unfoldable pub edit_sin_action : Option Target → ActionsWindow → Option ActionsWindow
  unfolding apply_sin
  edit_sin_action none w = some (apply_sin w)
  edit_sin_action (some t) w = get_elem? t.msg.signals 0 >> λ s. some (apply_sin w)

  unfoldable pub edit_table : Target → ActionsWindow → Option ActionsWindow
  unfolding edit_all
  edit_table t w =
      if not inp.signal_table
      then some w
      else edit_all inp.values 0 t.msg.signals w.edit_values >> λ vs.
          some (record w { edit_values = vs })

  unfoldable pub update_values : Target → ActionsWindow → Option ActionsWindow
  unfolding store_values encode
  update_values t w =
      if not inp.update
      then some w
      else store_values t.data_of.model t.index 0 t.msg.signals w.edit_values >> λ model. some (
          post_call (update_payload w.edit_action_idx (bytes_of (encode fp model t.index)))
            (record w { ifaces = set w.ifaces t.iface (record (t.data_of) { model = model }) }))

  -- The values again where their number is not that of the signals.
  unfoldable pub fit_values : Target → ActionsWindow → ActionsWindow
  unfolding values_of
  fit_values t w =
      if length w.edit_values == length t.msg.signals
      then w
      else record w { edit_values = values_of (some t.msg) }

  unfoldable pub edit_constant : Option Target → ActionsWindow → Option ActionsWindow
  unfolding fit_values edit_table update_values
  edit_constant none w = some w
  edit_constant (some t) w = edit_table t (fit_values t w) >> update_values t

  unfoldable pub edit_action : ActionInfo → ActionsWindow → Option ActionsWindow
  unfolding is_sin_action found_target edit_sin_action edit_constant
  edit_action info w =
      if not inp.begun
      then some w
      else if is_sin_action info
      then edit_sin_action (found_target w.ifaces info) w
      else edit_constant (found_target w.ifaces info) w

  unfoldable pub find_info : ℕ → List ActionInfo → Option ActionInfo
  find_info idx [] = none
  find_info idx (a ∷ as') = let rest = find_info idx as' in if a.idx == idx then some a else rest

  unfoldable pub render_edit_window : List ActionInfo → ActionsWindow → Option ActionsWindow
  unfolding find_info edit_action
  render_edit_window actions w =
      if not w.edit_open then some w else elim (find_info w.edit_action_idx actions) [
        | none ↦ some (record w { edit_open = false })
        | some info ↦ edit_action info (record w { edit_open = inp.still_open })
      ]

  -- The state of the loop over the rows: the window, and the last actions to toggle and to remove.
  abbrev pub Rows : Type 0
  Rows = ActionsWindow × (Option ℕ × Option ℕ)

  unfoldable pub click_row : ActionInfo → Rows → Rows
  unfolding open_edit
  click_row a r = (
    (if inp.select a.idx then open_edit a r.0 else r.0),
    (
      (if a.is_periodic && inp.toggle a.idx then some a.idx else r.1.0),
      (if inp.delete a.idx then some a.idx else r.1.1),
    ),
  )

  unfoldable pub click_rows : List ActionInfo → Rows → Rows
  unfolding click_row
  click_rows [] r = r
  click_rows (a ∷ rest) r = click_rows rest (click_row a r)

  unfoldable pub remove_clicked : ℕ → ActionsWindow → ActionsWindow
  remove_clicked i w =
      post_call (remove_action i)
        (if w.edit_open && w.edit_action_idx == i then record w { edit_open = false } else w)

  unfoldable pub finish_rows : Rows → ActionsWindow
  unfolding remove_clicked
  finish_rows (w, (to_toggle, to_remove)) =
      let w1 : ActionsWindow = elim to_toggle [
        | none ↦ w
        | some i ↦ post_call (toggle_pause i) w
      ] in
      elim to_remove [ none ↦ w1 | some i ↦ remove_clicked i w1 ]

  -- ActionsWindow::render with the snapshot of the actions; nothing where it reads behind a vector.
  unfoldable pub render_actions_window : List ActionInfo → ActionsWindow → Option ActionsWindow
  unfolding render_edit_window click_rows finish_rows
  render_actions_window actions w =
      if is_empty actions || not inp.table
      then render_edit_window actions w
      else render_edit_window actions (finish_rows (click_rows actions (w, (none, none))))
