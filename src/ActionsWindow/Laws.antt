-- ===== src/ActionsWindow/Laws.antt =====
-- Which actions a frame of the window speaks of, and when it reads behind a vector: src/gui/ActionsWindow.cpp.
use caneo.ActionsWindow.Edits.{
  lists, addresses, IsAddressed, all-snoc, all_listed, NoSignals, render_edit_window-Ok,
}
use mathlib.Core.Path.{subst}
use caneo.Common.{
  inl, inr, Bool-cases, if◌then◌else◌, if_all, ℕ, zero, suc, ◌≤◌, ◌<◌, ◌≡◌, refl, sym, ap, ◌∙◌,
  Bool, true, not, ◌&&◌, ◌||◌, Option, none, some, List, [], ◌∷◌, arith, leb, ◌==◌, length,
  get_elem?, erase_at, all, is_empty,
}
use caneo.Common.Ieee.{Ieee}
use caneo.Action.{ActionInfo}
use caneo.Action.Handler.{Handler}
use caneo.Action.Handler
use caneo.SendWindow.Shape.{Ok}
use caneo.Tui.{remove_action, toggle_pause}
use caneo.ActionsWindow.{
  ActionsWindow, is_sin_action, open_edit, ActionsInput, post_call, render_edit_window, click_row,
  click_rows, remove_clicked, finish_rows, render_actions_window,
}
use caneo.Common.OrderedMap.{nat_key, text_key, pair_key}

module _ (fp : Ieee) (inp : ActionsInput) (actions : List ActionInfo) where
  -- The loop over the rows makes no call, and remembers actions of the snapshot.
  abbrev pub listed_or_none : Option ℕ → Bool
  listed_or_none none = true
  listed_or_none (some i) = lists actions i

  record Clicked (w : ActionsWindow) (r : ActionsWindow × (Option ℕ × Option ℕ)) : Type 0 where
    same_posts : r.0.posts ≡ w.posts
    same_ifaces : r.0.ifaces ≡ w.ifaces
    toggle_listed : listed_or_none r.1.0 ≡ true
    remove_listed : listed_or_none r.1.1 ≡ true

  open_edit_same :
      (a : ActionInfo) (w : ActionsWindow)
      → ((open_edit a w).posts ≡ w.posts) × ((open_edit a w).ifaces ≡ w.ifaces)
  unfolding open_edit
  open_edit_same a w =
      if_all (λ (v : ActionsWindow). (v.posts ≡ w.posts) × (v.ifaces ≡ w.ifaces)) (is_sin_action a)
        (λ _. (refl, refl)) (λ _. (refl, refl))

  click_row-Clicked :
      (w : ActionsWindow) (a : ActionInfo) (r : ActionsWindow × (Option ℕ × Option ℕ))
      → lists actions a.idx ≡ true
      → Clicked w r
      → Clicked w (click_row fp inp a r)
  unfolding click_row
  click_row-Clicked w a r l c =
      let s = open_edit_same a r.0 in
      record {
        same_posts =
            if_all (λ (v : ActionsWindow). v.posts ≡ w.posts) (inp.select a.idx)
              (λ _. s.0 ∙ c.same_posts) (λ _. c.same_posts);
        same_ifaces =
            if_all (λ (v : ActionsWindow). v.ifaces ≡ w.ifaces) (inp.select a.idx)
              (λ _. s.1 ∙ c.same_ifaces) (λ _. c.same_ifaces);
        toggle_listed =
            if_all (λ o. listed_or_none o ≡ true) (a.is_periodic && inp.toggle a.idx) (λ _. l)
              (λ _. c.toggle_listed);
        remove_listed =
            if_all (λ o. listed_or_none o ≡ true) (inp.delete a.idx) (λ _. l)
              (λ _. c.remove_listed);
      }

  click_rows-Clicked :
      (w : ActionsWindow) (rows : List ActionInfo) (r : ActionsWindow × (Option ℕ × Option ℕ))
      → all (λ (a : ActionInfo). lists actions a.idx) rows ≡ true
      → Clicked w r
      → Clicked w (click_rows fp inp rows r)
  unfolding click_rows
  click_rows-Clicked w [] r l c = c
  click_rows-Clicked w (a ∷ rest) r l c =
      click_rows-Clicked w rest _ (ground (arith, l))
        (click_row-Clicked w a r (ground (arith, l)) c)

  toggle_row :
      (o : Option ℕ) (w : ActionsWindow)
      → listed_or_none o ≡ true
      → IsAddressed actions w
      → IsAddressed actions
          (elim o as (λ _. ActionsWindow) [ none ↦ w | some i ↦ post_call (toggle_pause i) w ])
  toggle_row none w l h = h
  toggle_row (some i) w l h = all-snoc actions w.posts _ h l

  remove_clicked-IsAddressed :
      (i : ℕ) (w : ActionsWindow)
      → lists actions i ≡ true
      → IsAddressed actions w
      → IsAddressed actions (remove_clicked fp inp i w)
  unfolding remove_clicked
  remove_clicked-IsAddressed i w l h =
      all-snoc actions _ (remove_action i)
        (if_all (IsAddressed actions) (w.edit_open && w.edit_action_idx == i) (λ _. h) (λ _. h)) l

  finish_rows-IsAddressed :
      (w : ActionsWindow) (r : ActionsWindow × (Option ℕ × Option ℕ))
      → Clicked w r
      → IsAddressed actions w
      → IsAddressed actions (finish_rows fp inp r)
  unfolding finish_rows
  finish_rows-IsAddressed w (v, (t, none)) c h =
      toggle_row t v c.toggle_listed
        (subst (λ ps. all (addresses actions) ps ≡ true) (sym c.same_posts) h)
  finish_rows-IsAddressed w (v, (t, some i)) c h = remove_clicked-IsAddressed i _ c.remove_listed (
      toggle_row t v c.toggle_listed
        (subst (λ ps. all (addresses actions) ps ≡ true) (sym c.same_posts) h))

  finish_rows_ifaces :
      (r : ActionsWindow × (Option ℕ × Option ℕ)) → (finish_rows fp inp r).ifaces ≡ r.0.ifaces
  unfolding finish_rows remove_clicked
  finish_rows_ifaces (v, (none, none)) = refl
  finish_rows_ifaces (v, (some i, none)) = refl
  finish_rows_ifaces (v, (none, some j)) =
      if_all (λ (x : ActionsWindow). x.ifaces ≡ v.ifaces) (v.edit_open && v.edit_action_idx == j)
        (λ _. refl) (λ _. refl)
  finish_rows_ifaces (v, (some i, some j)) =
      if_all (λ (x : ActionsWindow). x.ifaces ≡ v.ifaces) (v.edit_open && v.edit_action_idx == j)
        (λ _. refl) (λ _. refl)

  -- The action that is edited behind the loop: the last one that was selected in it, else the one before.
  abbrev pub last_selected : List ActionInfo → ℕ → ℕ
  last_selected [] idx = idx
  last_selected (a ∷ rest) idx = last_selected rest (if inp.select a.idx then a.idx else idx)

  abbrev pub edited_index : ActionsWindow → ℕ
  edited_index w =
      if is_empty actions || not inp.table
      then w.edit_action_idx
      else last_selected actions w.edit_action_idx

  open_edit_index : (a : ActionInfo) (w : ActionsWindow) → (open_edit a w).edit_action_idx ≡ a.idx
  unfolding open_edit
  open_edit_index a w =
      if_all (λ (v : ActionsWindow). v.edit_action_idx ≡ a.idx) (is_sin_action a) (λ _. refl)
        (λ _. refl)

  click_row_index :
      (a : ActionInfo) (r : ActionsWindow × (Option ℕ × Option ℕ))
      → (click_row fp inp a r).0.edit_action_idx
        ≡ (if inp.select a.idx then a.idx else r.0.edit_action_idx)
  unfolding click_row
  click_row_index a r = elim (Bool-cases (inp.select a.idx)) [
    | inl e ↦ rw e (open_edit_index a r.0)
    | inr e ↦ rw e refl
  ]

  click_rows_index :
      (rows : List ActionInfo) (r : ActionsWindow × (Option ℕ × Option ℕ))
      → (click_rows fp inp rows r).0.edit_action_idx ≡ last_selected rows r.0.edit_action_idx
  unfolding click_rows
  click_rows_index [] r = refl
  click_rows_index (a ∷ rest) r =
      click_rows_index rest (click_row fp inp a r) ∙ ap (last_selected rest) (click_row_index a r)

  finish_rows_index :
      (r : ActionsWindow × (Option ℕ × Option ℕ))
      → (finish_rows fp inp r).edit_action_idx ≡ r.0.edit_action_idx
  unfolding finish_rows remove_clicked
  finish_rows_index (v, (none, none)) = refl
  finish_rows_index (v, (some i, none)) = refl
  finish_rows_index (v, (none, some j)) =
      if_all (λ (x : ActionsWindow). x.edit_action_idx ≡ v.edit_action_idx)
        (v.edit_open && v.edit_action_idx == j) (λ _. refl) (λ _. refl)
  finish_rows_index (v, (some i, some j)) =
      if_all (λ (x : ActionsWindow). x.edit_action_idx ≡ v.edit_action_idx)
        (v.edit_open && v.edit_action_idx == j) (λ _. refl) (λ _. refl)

  render_actions_window-Ok :
      (w : ActionsWindow)
      → IsAddressed actions w
      → Ok
          (NoSignals fp inp actions (edited_index w) w.ifaces)
          (IsAddressed actions)
          (render_actions_window fp inp actions w)
  unfolding render_actions_window
  render_actions_window-Ok w h = elim (Bool-cases (is_empty actions || not inp.table)) [
    | inl b ↦ rw b (render_edit_window-Ok fp inp actions w h)
    | inr b ↦
        let r = click_rows fp inp actions (w, (none, none)) in
        let c =
          click_rows-Clicked w actions (w, (none, none)) (all_listed actions)
            (record {
              same_posts = refl;
              same_ifaces = refl;
              toggle_listed = refl;
              remove_listed = refl;
            }) in
        let v = finish_rows fp inp r in
        let i = finish_rows_index r ∙ click_rows_index actions (w, (none, none)) in
        rw b (
          subst
            (λ ds.
              Ok (NoSignals fp inp actions (last_selected actions w.edit_action_idx) ds)
                (IsAddressed actions) (render_edit_window fp inp actions v))
            (finish_rows_ifaces r ∙ c.same_ifaces)
            (subst
              (λ k.
                Ok (NoSignals fp inp actions k v.ifaces) (IsAddressed actions)
                  (render_edit_window fp inp actions v))
              i (render_edit_window-Ok fp inp actions v (finish_rows-IsAddressed w r c h))))
  ]

-- A frame of the window, whatever is clicked and typed: it reads behind a vector only if the action that is edited,
-- the one that was selected last, is a sin action of the snapshot whose message has no signals; else all its calls of
-- the action handler name actions of the snapshot that the frame was drawn from, if those before did.
pub render_actions_window_lem :
    (fp : Ieee) (inp : ActionsInput) (actions : List ActionInfo) (w : ActionsWindow)
    → IsAddressed actions w
    → Ok
        (NoSignals fp inp actions (edited_index fp inp actions w) w.ifaces)
        (IsAddressed actions)
        (render_actions_window fp inp actions w)
render_actions_window_lem fp inp actions w h = render_actions_window-Ok fp inp actions w h

get_elem?-erase_at :
    {A : Type 0} (xs : List A) (k i : ℕ)
    → k ≤ i
    → get_elem? (erase_at xs k) i ≡ get_elem? xs (suc i)
get_elem?-erase_at [] k i h = refl
get_elem?-erase_at (x ∷ xs) zero i h = refl
get_elem?-erase_at (x ∷ xs) (suc k) zero h = absurd (omega (arith, h))
get_elem?-erase_at (x ∷ xs) (suc k) (suc i) h = get_elem?-erase_at xs k i (omega (arith, h))

-- The edit window keeps an index: where an action before the edited one is removed, the window stays
-- open at the same index, at which the handler now has the next action.
pub removed_before_edited :
    {E : Type 0} (fp : Ieee) (inp : ActionsInput) (w : ActionsWindow) (h : Handler E) (k : ℕ)
    → w.edit_open ≡ true
    → k < w.edit_action_idx
    → k < length h.actions
    → let w' = finish_rows fp inp (w, (none, some k)) in
      (w'.edit_open ≡ true)
      × (get_elem? (Handler.remove_action h k).actions w'.edit_action_idx
          ≡ get_elem? h.actions (suc w.edit_action_idx))
unfolding finish_rows remove_clicked Handler.remove_action
removed_before_edited {E = E} fp inp w h k o l m = (
  ground (arith, o, l),
  ap (get_elem? (Handler.remove_action h k).actions) (
        if_all (λ (v : ActionsWindow). v.edit_action_idx ≡ w.edit_action_idx)
          (w.edit_open && w.edit_action_idx == k) (λ _. refl) (λ _. refl))
      ∙ if_all
          (λ (v : Handler E).
            get_elem? v.actions w.edit_action_idx ≡ get_elem? h.actions (suc w.edit_action_idx))
          (leb (length h.actions) k) (λ c. absurd (ground (arith, c, m)))
          (λ _. get_elem?-erase_at h.actions k w.edit_action_idx (omega (arith, l))),
)
