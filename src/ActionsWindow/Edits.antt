-- ===== src/ActionsWindow/Edits.antt =====
-- Which actions the edit window speaks of, and when it reads behind a vector: src/gui/ActionsWindow.cpp.
use caneo.Common.{
  if◌then◌else◌, if_all, ℕ, suc, ◌+◌, ◌≡◌, refl, sym, ◌∙◌, ap, Bool, true, false, not, Option, none,
  some, List, [], ◌∷◌, ◌++◌, map, arith, ◌==◌, ==_iff, length, get_elem?, any, all,
}
use caneo.Common.Ieee.{Double, Ieee}
use caneo.Action.{ActionInfo}
use caneo.Preset.{◌>>◌}
use caneo.Send.{SendModel, SendSignal}
use caneo.SendWindow.{IfaceData, values_of, edit_all, store_values}
use caneo.SendWindow.Shape.{Ok, Ok-bind, length-edit_all}
use caneo.Tui.{Post, remove_action, toggle_pause, update_sin_param, update_payload}
use caneo.ActionsWindow.{
  ActionsWindow, Target, found_target, is_sin_action, ActionsInput, apply_sin, edit_sin_action,
  edit_table, update_values, fit_values, edit_constant, edit_action, find_info, render_edit_window,
}
use caneo.Common.OrderedMap.{nat_key, text_key, pair_key}

abbrev pub lists : List ActionInfo → ℕ → Bool
lists actions i = any (λ (a : ActionInfo). a.idx == i) actions

-- A call for an action of the snapshot.
abbrev pub addresses : List ActionInfo → Post → Bool
addresses actions (remove_action i) = lists actions i
addresses actions (toggle_pause i) = lists actions i
addresses actions (update_sin_param i p v) = lists actions i
addresses actions (update_payload i bytes) = lists actions i
addresses actions _ = false

-- The first action of a snapshot with an index.
abbrev pub listed_info : ℕ → List ActionInfo → Option ActionInfo
listed_info idx [] = none
listed_info idx (a ∷ rest) = if a.idx == idx then some a else listed_info idx rest

abbrev pub IsAddressed : List ActionInfo → ActionsWindow → Type 0
IsAddressed actions w = all (addresses actions) w.posts ≡ true

pub all-snoc :
    (actions : List ActionInfo) (ps : List Post) (p : Post)
    → all (addresses actions) ps ≡ true
    → addresses actions p ≡ true
    → all (addresses actions) (ps ++ (p ∷ [])) ≡ true
all-snoc actions [] p h k = ground (arith, k)
all-snoc actions (q ∷ ps) p h k = ground (arith, all-snoc actions ps p, h, k)

pub find_info-lists :
    (idx : ℕ) (fp : Ieee) (inp : ActionsInput) (actions : List ActionInfo) (info : ActionInfo)
    → find_info fp inp idx actions ≡ some info
    → lists actions idx ≡ true
unfolding find_info
find_info-lists idx fp inp [] info h = cc
find_info-lists idx fp inp (a ∷ rest) info h =
    ground (arith, h, find_info-lists idx fp inp rest info)

pub listed-cons :
    (a : ActionInfo) (rest xs : List ActionInfo)
    → all (λ (x : ActionInfo). lists rest x.idx) xs ≡ true
    → all (λ (x : ActionInfo). lists (a ∷ rest) x.idx) xs ≡ true
listed-cons a rest [] h = refl
listed-cons a rest (x ∷ xs) h = ground (arith, h, listed-cons a rest xs)

pub all_listed :
    (actions : List ActionInfo) → all (λ (x : ActionInfo). lists actions x.idx) actions ≡ true
all_listed [] = refl
all_listed (a ∷ rest) = ground (arith, listed-cons a rest rest (all_listed rest))

module _ (fp : Ieee) (inp : ActionsInput) (actions : List ActionInfo) where
  apply_sin-IsAddressed :
      (w : ActionsWindow)
      → lists actions w.edit_action_idx ≡ true
      → IsAddressed actions w
      → IsAddressed actions (apply_sin fp inp w)
  unfolding apply_sin
  apply_sin-IsAddressed w l h =
      if_all (IsAddressed actions) inp.apply
        (λ _. all-snoc actions _ _ (all-snoc actions _ _ (all-snoc actions w.posts _ h l) l) l)
        (λ _. h)

  -- The one read behind a vector: the edited action, which is the first of the snapshot with this index, is a sin
  -- action, and its message has no signals.
  abbrev pub NoSignals : ℕ → List IfaceData → Type 0
  NoSignals idx ifaces =
      (info : ActionInfo) × (listed_info idx actions ≡ some info)
      × (is_sin_action info ≡ true)
      × (t : Target) × (found_target ifaces info ≡ some t)
      × (t.msg.signals ≡ [])

  find_info-listed_info :
      (idx : ℕ) (l : List ActionInfo) → find_info fp inp idx l ≡ listed_info idx l
  unfolding find_info
  find_info-listed_info idx [] = refl
  find_info-listed_info idx (a ∷ rest) = rw (find_info-listed_info idx rest) refl

  edit_sin_action-Ok :
      (Q : Type 0) (o : Option Target) (w : ActionsWindow)
      → ((t : Target) → o ≡ some t → t.msg.signals ≡ [] → Q)
      → lists actions w.edit_action_idx ≡ true
      → IsAddressed actions w
      → Ok Q (IsAddressed actions) (edit_sin_action fp inp o w)
  unfolding edit_sin_action
  edit_sin_action-Ok Q none w q l h = apply_sin-IsAddressed w l h
  edit_sin_action-Ok Q (some t) w q l h = first_signal Q t.msg.signals (q t refl) w l h
    where
      first_signal :
          (Q : Type 0) (ss : List SendSignal)
          → (ss ≡ [] → Q)
          → (w : ActionsWindow) → lists actions w.edit_action_idx ≡ true
          → IsAddressed actions w
          → Ok Q (IsAddressed actions) (get_elem? ss 0 >> λ s. some (apply_sin fp inp w))
      first_signal Q [] q w l h = q refl
      first_signal Q (s ∷ ss) q w l h = apply_sin-IsAddressed w l h

  -- The window with values for a message.
  record Fits (t : Target) (w : ActionsWindow) : Type 0 where
    listed : lists actions w.edit_action_idx ≡ true
    addressed : IsAddressed actions w
    sized : length w.edit_values ≡ length t.msg.signals

  store_values-Ok :
      (Q : Type 0) (model : SendModel) (j k : ℕ) (ss : List SendSignal) (vs : List Double)
      → length vs ≡ length ss
      → Ok Q (λ _. Unit) (store_values model j k ss vs)
  unfolding store_values
  store_values-Ok Q model j k [] vs e = tt
  store_values-Ok Q model j k (s ∷ ss) [] e = absurd (omega (arith, e))
  store_values-Ok Q model j k (s ∷ ss) (v ∷ vs) e =
      store_values-Ok Q _ j (k + 1) ss vs (omega (arith, e))

  update_values-Ok :
      (Q : Type 0) (t : Target) (w : ActionsWindow)
      → Fits t w
      → Ok Q (IsAddressed actions) (update_values fp inp t w)
  unfolding update_values
  update_values-Ok Q t w f =
      if_all (Ok Q (IsAddressed actions)) (not inp.update) (λ _. f.addressed)
        (λ _.
          Ok-bind Q (λ _. Unit) (IsAddressed actions)
            (store_values t.data_of.model t.index 0 t.msg.signals w.edit_values) _
            (store_values-Ok Q t.data_of.model t.index 0 t.msg.signals w.edit_values f.sized)
            (λ model _. all-snoc actions w.posts _ f.addressed f.listed))

  edit_table-Ok :
      (Q : Type 0) (t : Target) (w : ActionsWindow)
      → Fits t w
      → Ok Q (Fits t) (edit_table fp inp t w)
  unfolding edit_table
  edit_table-Ok Q t w f =
      if_all (Ok Q (Fits t)) (not inp.signal_table) (λ _. f)
        (λ _.
          Ok-bind Q (λ r. length r ≡ length t.msg.signals) (Fits t)
            (edit_all inp.values 0 t.msg.signals w.edit_values) _
            (length-edit_all Q inp.values 0 t.msg.signals w.edit_values f.sized)
            (λ vs k. record { listed = f.listed; addressed = f.addressed; sized = k }))

  length_of_values :
      (ss : List SendSignal) → length (map (λ (s : SendSignal). s.value) ss) ≡ length ss
  length_of_values [] = refl
  length_of_values (s ∷ ss) = ap suc (length_of_values ss)

  fit_values-Fits :
      (t : Target) (w : ActionsWindow)
      → lists actions w.edit_action_idx ≡ true
      → IsAddressed actions w
      → Fits t (fit_values fp inp t w)
  unfolding fit_values values_of
  fit_values-Fits t w l h =
      if_all (Fits t) (length w.edit_values == length t.msg.signals)
        (λ e. record { listed = l; addressed = h; sized = (==_iff _ _).0 e })
        (λ _. record { listed = l; addressed = h; sized = length_of_values t.msg.signals })

  edit_constant-Ok :
      (Q : Type 0) (o : Option Target) (w : ActionsWindow)
      → lists actions w.edit_action_idx ≡ true
      → IsAddressed actions w
      → Ok Q (IsAddressed actions) (edit_constant fp inp o w)
  unfolding edit_constant
  edit_constant-Ok Q none w l h = h
  edit_constant-Ok Q (some t) w l h =
      Ok-bind Q (Fits t) (IsAddressed actions) (edit_table fp inp t (fit_values fp inp t w))
        (update_values fp inp t) (edit_table-Ok Q t _ (fit_values-Fits t w l h))
        (λ w' f. update_values-Ok Q t w' f)

  edit_action-Ok :
      (info : ActionInfo) (w : ActionsWindow)
      → listed_info w.edit_action_idx actions ≡ some info
      → lists actions w.edit_action_idx ≡ true
      → IsAddressed actions w
      → Ok (NoSignals w.edit_action_idx w.ifaces) (IsAddressed actions) (edit_action fp inp info w)
  unfolding edit_action
  edit_action-Ok info w found l h =
      let P : Option ActionsWindow → Type 0 =
        Ok (NoSignals w.edit_action_idx w.ifaces) (IsAddressed actions) in
      if_all P (not inp.begun) (λ _. h)
        λ _.
          if_all P (is_sin_action info)
            (λ s.
              edit_sin_action-Ok (NoSignals w.edit_action_idx w.ifaces) (found_target w.ifaces info)
                w (λ t e n. (info, found, s, t, e, n)) l h)
            (λ _.
              edit_constant-Ok (NoSignals w.edit_action_idx w.ifaces) (found_target w.ifaces info) w
                l h)

  look_up-Ok :
      (Q : Type 0) (o : Option ActionInfo) (w : ActionsWindow)
      → IsAddressed actions w
      → ((info : ActionInfo)
          → o ≡ some info
          → Ok Q
              (IsAddressed actions)
              (edit_action fp inp info (record w { edit_open = inp.still_open })))
      → Ok Q (IsAddressed actions) (elim o as (λ _. Option ActionsWindow) [
        | none ↦ some (record w { edit_open = false })
        | some info ↦ edit_action fp inp info (record w { edit_open = inp.still_open })
      ])
  look_up-Ok Q none w h k = h
  look_up-Ok Q (some info) w h k = k info refl

  pub render_edit_window-Ok :
      (w : ActionsWindow)
      → IsAddressed actions w
      → Ok
          (NoSignals w.edit_action_idx w.ifaces)
          (IsAddressed actions)
          (render_edit_window fp inp actions w)
  unfolding render_edit_window
  render_edit_window-Ok w h =
      let P : Option ActionsWindow → Type 0 =
        Ok (NoSignals w.edit_action_idx w.ifaces) (IsAddressed actions) in
      if_all P (not w.edit_open) (λ _. h)
        λ _.
          look_up-Ok (NoSignals w.edit_action_idx w.ifaces)
            (find_info fp inp w.edit_action_idx actions) w h
            (λ info e.
              edit_action-Ok info (record w { edit_open = inp.still_open })
                (sym (find_info-listed_info w.edit_action_idx actions) ∙ e)
                (find_info-lists w.edit_action_idx fp inp actions info e) h)
