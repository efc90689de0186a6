-- ===== src/Action/Handler.antt =====
-- src/action/ActionHandler: the posted operations on the list of actions, the callbacks of a timer, and
-- the snapshot that other threads read.
pub mod Snapshot
pub mod Places
pub mod Quiet
pub mod Pausing
pub mod Late
mod Tests
use caneo.Common.{
  ℕ, zero, suc, ◌+◌, Option, none, some, List, [], ◌∷◌, ◌++◌, ltb, leb, ◌==◌, if◌then◌else◌, length,
  get_elem?, erase_at,
}
use caneo.Common.Text.{Text}
use caneo.Common.Int.{ℤ}
use caneo.Common.Ieee.{Double, Ieee}
use caneo.Action.{
  Kind, single, periodic, sin, Action, ActionInfo, schedule, start, pause, infos, switch_pause,
  is_sin, set_sin_param, set_payload, mark_sent, wave,
}

-- A call of `send_fn_`.
pub record Sent : Type 0 where
  pub interface : Text
  pub id : ℕ
  pub payload : List ℕ

pub record Handler (E : Type 0) : Type 0 where
  pub actions : List (Action E)
  pub snapshot : List ActionInfo
  pub sent : List Sent
  pub notified : ℕ

-- What runs on the asio thread: a posted operation, or the handler of a wait that completed.
pub data Task (E : Type 0) : Type 0 where
  add : Action E → Task E
  add_paused : Action E → Task E
  remove : ℕ → Task E
  toggle : ℕ → Task E
  sin_param : ℕ → ℕ → Double → Task E
  payload : ℕ → List ℕ → Task E
  completed : ℕ → Task E

module _ {E : Type 0} where
  rebuild_snapshot : Handler E → Handler E
  unfolding infos
  rebuild_snapshot h = record h { snapshot = infos 0 h.actions; notified = h.notified + 1 }

  unfoldable pub new_handler : Handler E
  new_handler = record { actions = []; snapshot = []; sent = []; notified = 0 }

  -- The posted part of ActionHandler::add_action.
  unfoldable pub add_action : Handler E → Action E → Handler E
  unfolding start rebuild_snapshot
  add_action h a = rebuild_snapshot (record h { actions = h.actions ++ (start a ∷ []) })

  unfoldable pub add_action_paused : Ieee → ℤ → Handler E → Action E → Handler E
  unfolding start pause rebuild_snapshot
  add_action_paused fp now h a =
      rebuild_snapshot (record h { actions = h.actions ++ (pause fp now (start a) ∷ []) })

  -- The action that is cancelled is destroyed, and its timer with it.
  unfoldable pub remove_action : Handler E → ℕ → Handler E
  unfolding rebuild_snapshot
  remove_action h idx =
      if leb (length h.actions) idx
      then h
      else rebuild_snapshot (record h { actions = erase_at h.actions idx })

  pub modify_at : (Action E → Action E) → List (Action E) → ℕ → List (Action E)
  modify_at f [] i = []
  modify_at f (a ∷ rest) zero = f a ∷ rest
  modify_at f (a ∷ rest) (suc i) = a ∷ modify_at f rest i

  unfoldable pub toggle_pause : Ieee → ℤ → Handler E → ℕ → Handler E
  unfolding switch_pause modify_at rebuild_snapshot
  toggle_pause fp now h idx =
      if leb (length h.actions) idx
      then h
      else rebuild_snapshot (record h { actions = modify_at (switch_pause fp now) h.actions idx })

  unfoldable pub update_sin_param : Ieee → Handler E → ℕ → ℕ → Double → Handler E
  unfolding set_sin_param modify_at rebuild_snapshot is_sin
  update_sin_param fp h idx param v = elim (get_elem? h.actions idx) [
    | none ↦ h
    | some a ↦
        if is_sin a.kind
        then rebuild_snapshot
            (record h { actions = modify_at (set_sin_param fp param v) h.actions idx })
        else h
  ]

  -- ActionHandler::update_payload; no snapshot is built.
  unfoldable pub update_payload : Handler E → ℕ → List ℕ → Handler E
  unfolding set_payload modify_at
  update_payload h idx p =
      if ltb idx (length h.actions)
      then record h { actions = modify_at (set_payload p) h.actions idx }
      else h

  -- Timer callbacks.

  unfoldable pub find : ℕ → List (Action E) → Option (Action E)
  find ptr [] = none
  find ptr (a ∷ rest) = if a.ptr == ptr then some a else find ptr rest

  pub modify : (Action E → Action E) → ℕ → List (Action E) → List (Action E)
  modify f ptr [] = []
  modify f ptr (a ∷ rest) = (if a.ptr == ptr then f a else a) ∷ modify f ptr rest

  -- Action::fire, which ends in ActionHandler::on_action_fired.
  fire : ℤ → Handler E → Action E → Handler E
  unfolding mark_sent modify rebuild_snapshot
  fire now h a = rebuild_snapshot (record h {
    sent = h.sent ++ (record { interface = a.interface; id = a.msg_id; payload = a.payload } ∷ []);
    actions = modify (mark_sent now) a.ptr h.actions;
  })

  pub without : ℕ → List (Action E) → List (Action E)
  without ptr [] = []
  without ptr (a ∷ rest) = if a.ptr == ptr then without ptr rest else a ∷ without ptr rest

  -- ActionHandler::on_action_done.
  on_action_done : Handler E → ℕ → Handler E
  unfolding without rebuild_snapshot
  on_action_done h ptr = rebuild_snapshot (record h { actions = without ptr h.actions })

  reschedule : ℕ → Handler E → Handler E
  unfolding schedule modify
  reschedule ptr h = record h { actions = modify schedule ptr h.actions }

  pub complete_kind : Ieee → (E → Double → List ℕ) → ℤ → Handler E → Action E → Kind E → Handler E
  unfolding fire on_action_done reschedule wave set_payload modify
  complete_kind fp encode now h a single = on_action_done (fire now h a) a.ptr
  complete_kind fp encode now h a (periodic p) = reschedule a.ptr (fire now h a)
  complete_kind fp encode now h a (sin i e amp sp o r acc) =
      let bytes = encode e (wave fp now amp sp o r acc) in
      let h' = record h { actions = modify (set_payload bytes) a.ptr h.actions } in
      reschedule a.ptr (fire now h' (set_payload bytes a))

  -- The body of a wait's handler under no error. Nothing stands for a call on an action that is
  -- gone. (Under an error it returns at once.)
  unfoldable pub on_wait : Ieee → (E → Double → List ℕ) → ℤ → Handler E → ℕ → Option (Handler E)
  unfolding find complete_kind
  on_wait fp encode now h ptr = elim (find ptr h.actions) [
    | none ↦ none
    | some a ↦ some (complete_kind fp encode now h a a.kind)
  ]

  -- One task at a time of the clock; nothing is left of the handler when it uses an action that is
  -- gone.
  unfoldable pub perform :
      Ieee → (E → Double → List ℕ) → ℤ → Handler E → Task E → Option (Handler E)
  unfolding add_action add_action_paused remove_action toggle_pause update_sin_param update_payload
      on_wait
  perform fp encode now h (add a) = some (add_action h a)
  perform fp encode now h (add_paused a) = some (add_action_paused fp now h a)
  perform fp encode now h (remove idx) = some (remove_action h idx)
  perform fp encode now h (toggle idx) = some (toggle_pause fp now h idx)
  perform fp encode now h (sin_param idx param v) = some (update_sin_param fp h idx param v)
  perform fp encode now h (payload idx p) = some (update_payload h idx p)
  perform fp encode now h (completed ptr) = on_wait fp encode now h ptr
