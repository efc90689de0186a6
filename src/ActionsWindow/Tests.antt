-- ===== src/ActionsWindow/Tests.antt =====
-- Two actions without a model, and the theorems on the window at them.
use caneo.Common.Plain.{plain}
use caneo.Action.{Action, ActionInfo, single}
use caneo.Action.Handler.{Handler}
use caneo.Action.Handler
use caneo.SendWindow.Shape.{Ok}
use caneo.Tui.{Post, remove_action}
use caneo.ActionsWindow.{
  ActionsWindow, ActionsInput, new_actions_window, finish_rows, render_actions_window,
}
use caneo.ActionsWindow.Edits.{IsAddressed, NoSignals}
use caneo.ActionsWindow.Laws.{edited_index, render_actions_window_lem, removed_before_edited}
use caneo.Common.{
  ℕ, suc, ◌≡◌, refl, true, false, Option, none, some, List, [], ◌∷◌, arith, ◌==◌, get_elem?,
}
use caneo.Common.Text.{codes}
use caneo.Common.Int.{pos}
use caneo.Common.OrderedMap.{nat_key, text_key, pair_key}

abbrev row : ℕ → ActionInfo
row i = record {
  idx = i;
  msg_id = 291;
  msg_name = codes "Speed";
  type_name = codes "Constant";
  interface = codes "can0";
  is_periodic = true;
  paused = false;
  sin_amplitude = 0;
  sin_period_ms = pos 0;
  sin_offset = 0;
  period = pos 20;
  last_sent = pos 0;
  ever_sent = false;
}

-- The second action is selected and the first one deleted.
abbrev input : ActionsInput
input = record {
  table = true;
  select = λ i. i == 1;
  toggle = λ i. false;
  delete = λ i. i == 0;
  begun = true;
  still_open = true;
  amplitude = λ v. v;
  offset = λ v. v;
  sin_period = λ v. v;
  apply = false;
  signal_table = true;
  values = λ k v. v;
  update = true;
}

posts_of : Option ActionsWindow → List Post
posts_of none = []
posts_of (some w) = w.posts

abbrev window : ActionsWindow
unfolding new_actions_window
window = new_actions_window []

one_removed :
    posts_of (render_actions_window plain input (row 0 ∷ row 1 ∷ []) window) ≡ remove_action 0 ∷ []
unfolding render_actions_window posts_of window
one_removed = refl

abbrev action : ℕ → Action ℕ
action p = record {
  ptr = p;
  kind = single;
  interface = codes "can0";
  msg_id = 291;
  msg_name = codes "Speed";
  payload = [];
  last_sent = pos 0;
  ever_sent = false;
  paused = false;
  armed = none;
}

abbrev handler : Handler ℕ
handler = record {
  actions = action 5 ∷ action 6 ∷ action 7 ∷ [];
  snapshot = [];
  sent = [];
  notified = 0;
}

abbrev editing : ActionsWindow
unfolding new_actions_window
editing = record (new_actions_window []) { edit_open = true; edit_action_idx = 1 }

render_actions_window_lem_example :
    Ok
      (NoSignals plain input
        (row 0 ∷ row 1 ∷ [])
        (edited_index plain input (row 0 ∷ row 1 ∷ []) window)
        [])
      (IsAddressed (row 0 ∷ row 1 ∷ []))
      (render_actions_window plain input (row 0 ∷ row 1 ∷ []) window)
unfolding window
render_actions_window_lem_example =
    render_actions_window_lem plain input (row 0 ∷ row 1 ∷ []) window refl

removed_before_edited_example :
    let w' = finish_rows plain input (editing, (none, some 0)) in
    (w'.edit_open ≡ true)
    × (get_elem? (Handler.remove_action handler 0).actions w'.edit_action_idx
        ≡ get_elem? handler.actions (suc editing.edit_action_idx))
unfolding editing
removed_before_edited_example =
    removed_before_edited plain input editing handler 0 refl (omega arith) (omega arith)
