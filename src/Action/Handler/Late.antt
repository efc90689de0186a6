-- ===== src/Action/Handler/Late.antt =====
-- Completions that run late. Boost.Asio documents that `cancel` cannot take back a completion that is
-- queued already: it runs with success. src/action/Action.cpp does not expect that.
use caneo.Common.{
  ℕ, zero, suc, ◌<◌, ◌≡◌, refl, ◌≢◌, true, none, some, List, [], ◌∷◌, ◌++◌, arith, ==_iff, length,
  get_elem?, erase_at, All,
}
use caneo.Common.Int.{ℤ}
use caneo.Common.OrderedMap.{nat_key, text_key, pair_key}
use caneo.Common.Ieee.{Double, Ieee}
use caneo.Action.{periodic, Action, schedule, mark_sent}
use caneo.Action.Handler.{
  Handler, remove_action, rebuild_snapshot, find, modify, fire, reschedule, complete_kind, on_wait,
  perform, remove, completed,
}
use caneo.Action.Handler.Places.{IsDistinct}

module _ {E : Type 0} where
  find-modify :
      (f : Action E → Action E) (ptr : ℕ) (a : Action E) (l : List (Action E))
      → ((b : Action E) → (f b).ptr ≡ b.ptr)
      → find ptr l ≡ some a
      → find ptr (modify f ptr l) ≡ some (f a)
  unfolding find modify
  find-modify f ptr a [] same e = cc
  find-modify f ptr a (b ∷ rest) same e = ground (arith, same b, find-modify f ptr a rest same)

  -- Whenever the completion of a periodic action's wait runs after the action was paused, the action
  -- sends its frame, and waits again although it is still paused.
  pub late_completion_resends :
      (fp : Ieee) (encode : E → Double → List ℕ) (now p : ℤ) (h : Handler E) (a : Action E)
      → find a.ptr h.actions ≡ some a
      → a.kind ≡ periodic p
      → a.paused ≡ true
      → (h' : Handler E) × (b : Action E) × (perform fp encode now h (completed a.ptr) ≡ some h')
        × (h'.sent
            ≡ h.sent
              ++ (record { interface = a.interface; id = a.msg_id; payload = a.payload } ∷ []))
        × (find a.ptr h'.actions ≡ some b)
        × (b.paused ≡ true)
        × (b.armed ≡ some p)
  unfolding perform complete_kind fire reschedule rebuild_snapshot schedule mark_sent
  late_completion_resends fp encode now p h a found k paused = (
    complete_kind fp encode now h a (periodic p),
    schedule (mark_sent now a),
    rw (found, on_wait) (rw (k, complete_kind)),
    refl,
    find-modify schedule a.ptr (mark_sent now a) (modify (mark_sent now) a.ptr h.actions)
        (λ b. refl) (find-modify (mark_sent now) a.ptr a h.actions (λ b. refl) found),
    paused,
    rw k,
  )

  find_apart :
      (ptr : ℕ) (l : List (Action E)) → All (λ (b : Action E). ptr ≢ b.ptr) l → find ptr l ≡ none
  unfolding find
  find_apart ptr [] h = refl
  find_apart ptr (b ∷ rest) h = ground (arith, find_apart ptr rest h.1, h.0, ==_iff b.ptr ptr)

  get_apart :
      (ptr : ℕ) (l : List (Action E)) (i : ℕ) (a : Action E)
      → All (λ (b : Action E). ptr ≢ b.ptr) l
      → get_elem? l i ≡ some a
      → ptr ≢ a.ptr
  get_apart ptr [] i a h e = cc
  get_apart ptr (b ∷ rest) zero a h e = let q : b ≡ a = cc in rw (← q) h.0
  get_apart ptr (b ∷ rest) (suc i) a h e = get_apart ptr rest i a h.1 e

  find-erase_at :
      (l : List (Action E)) (i : ℕ) (a : Action E)
      → IsDistinct l
      → get_elem? l i ≡ some a
      → find a.ptr (erase_at l i) ≡ none
  unfolding find
  find-erase_at [] i a d e = cc
  find-erase_at (b ∷ rest) zero a d e = let q : b ≡ a = cc in rw (← q) (find_apart b.ptr rest d.0)
  find-erase_at (b ∷ rest) (suc i) a d e =
      ground (arith, find-erase_at rest i a d.1, get_apart b.ptr rest i a d.0)

  get_in_range :
      (l : List (Action E)) (i : ℕ) (a : Action E) → get_elem? l i ≡ some a → i < length l
  get_in_range [] i a e = cc
  get_in_range (b ∷ rest) zero a e = omega arith
  get_in_range (b ∷ rest) (suc i) a e = omega (arith, get_in_range rest i a e)

  -- Whenever an action is removed while the completion of its wait is queued, that completion then
  -- uses the action after it was destroyed.
  pub removed_then_completed :
      (fp : Ieee) (encode : E → Double → List ℕ) (now : ℤ) (h : Handler E) (idx : ℕ) (a : Action E)
      → IsDistinct h.actions
      → get_elem? h.actions idx ≡ some a
      → (h' : Handler E) × (perform fp encode now h (remove idx) ≡ some h')
        × (perform fp encode now h' (completed a.ptr) ≡ none)
  unfolding perform rebuild_snapshot
  removed_then_completed fp encode now h idx a d e = (
    remove_action h idx,
    refl,
    ground (arith, find-erase_at h.actions idx a d e, get_in_range h.actions idx a e),
  )
