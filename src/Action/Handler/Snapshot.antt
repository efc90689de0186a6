-- ===== src/Action/Handler/Snapshot.antt =====
-- The snapshot of src/action/ActionHandler.cpp always describes the list of actions.
use caneo.Common.{
  ℕ, zero, suc, ◌+◌, ◌≡◌, refl, sym, ap, ◌∙◌, inl, inr, some, List, [], ◌∷◌, arith, Option-cases,
}
use caneo.Common.Int.{ℤ}
use caneo.Common.OrderedMap.{nat_key, text_key, pair_key}
use caneo.Common.Ieee.{Double, Ieee}
use caneo.Action.{Kind, single, periodic, sin, Action, info, infos, set_payload, schedule, wave}
use caneo.Action.Handler.{
  Handler, modify_at, find, modify, fire, on_action_done, reschedule, complete_kind, Task, perform,
  add, add_paused, remove, toggle, sin_param, payload, completed,
}

module _ {E : Type 0} where
  -- Entry `i` of the snapshot describes action `i`, and there are no others.
  abbrev pub IsCurrent : Handler E → Type 0
  IsCurrent h = h.snapshot ≡ infos 0 h.actions

  -- What a snapshot shows does not depend on the payload of an action or on its timer.
  infos-modify_at_payload :
      (p : List ℕ) (l : List (Action E)) (n i : ℕ)
      → infos n (modify_at (set_payload p) l i) ≡ infos n l
  unfolding infos modify_at set_payload
  infos-modify_at_payload p [] n i = refl
  infos-modify_at_payload p (a ∷ rest) n zero = refl
  infos-modify_at_payload p (a ∷ rest) n (suc i) =
      ap (◌∷◌ (info n a)) (infos-modify_at_payload p rest (n + 1) i)

  infos-modify-schedule :
      (ptr : ℕ) (l : List (Action E)) (n : ℕ) → infos n (modify schedule ptr l) ≡ infos n l
  unfolding infos modify schedule
  infos-modify-schedule ptr [] n = refl
  infos-modify-schedule ptr (a ∷ rest) n = ground (arith, infos-modify-schedule ptr rest (n + 1))

  reschedule-IsCurrent : (ptr : ℕ) (h : Handler E) → IsCurrent h → IsCurrent (reschedule ptr h)
  unfolding reschedule
  reschedule-IsCurrent ptr h e = e ∙ sym (infos-modify-schedule ptr h.actions 0)

  complete_kind-IsCurrent :
      (fp : Ieee) (encode : E → Double → List ℕ) (now : ℤ) (h : Handler E) (a : Action E)
      (k : Kind E)
      → IsCurrent (complete_kind fp encode now h a k)
  unfolding complete_kind fire on_action_done
  complete_kind-IsCurrent fp encode now h a single = refl
  complete_kind-IsCurrent fp encode now h a (periodic p) =
      reschedule-IsCurrent a.ptr (fire now h a) refl
  complete_kind-IsCurrent fp encode now h a (sin i e amp sp o r acc) =
      let bytes = encode e (wave fp now amp sp o r acc) in
      let h' : Handler E = record h { actions = modify (set_payload bytes) a.ptr h.actions } in
      reschedule-IsCurrent a.ptr (fire now h' (set_payload bytes a)) refl

  -- Every operation and every timer callback leaves a snapshot that describes the actions, entry by
  -- entry and with their places as `idx`; also `update_payload`, which builds none.
  pub perform-IsCurrent :
      (fp : Ieee) (encode : E → Double → List ℕ) (now : ℤ) (h h' : Handler E) (t : Task E)
      → IsCurrent h
      → perform fp encode now h t ≡ some h'
      → IsCurrent h'
  unfolding perform
  perform-IsCurrent fp encode now h h' (add a) c e = ground arith
  perform-IsCurrent fp encode now h h' (add_paused a) c e = ground arith
  perform-IsCurrent fp encode now h h' (remove idx) c e = ground arith
  perform-IsCurrent fp encode now h h' (toggle idx) c e = ground arith
  perform-IsCurrent fp encode now h h' (sin_param idx param v) c e = ground arith
  perform-IsCurrent fp encode now h h' (payload idx p) c e =
      ground (arith, infos-modify_at_payload p h.actions 0 idx)
  perform-IsCurrent fp encode now h h' (completed ptr) c e =
      elim (Option-cases (find ptr h.actions)) [
        | inl q ↦ ground arith
        | inr (a, q) ↦ ground (arith, complete_kind-IsCurrent fp encode now h a a.kind)
      ]
