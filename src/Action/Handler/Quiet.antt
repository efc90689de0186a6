-- ===== src/Action/Handler/Quiet.antt =====
-- Paused actions and their timers: src/action/Action.cpp and ActionHandler.cpp. `IsQuiet` is what
-- pausing means to guarantee: a paused action waits for nothing.
use caneo.Common.{
  ℕ, ◌≡◌, refl, sym, ◌≢◌, inl, inr, true, false, none, some, List, [], ◌∷◌, arith, ◌==◌, ==_iff,
  Bool-cases, All,
}
use caneo.Common.Int.{ℤ}
use caneo.Common.OrderedMap.{nat_key, text_key, pair_key}
use caneo.Common.Ieee.{Double, Ieee}
use caneo.Action.{Kind, single, periodic, sin, Action, schedule, set_payload, mark_sent, wave}
use caneo.Action.Handler.{
  Handler, rebuild_snapshot, find, modify, fire, on_action_done, reschedule, complete_kind,
}
use caneo.Action.Handler.Places.{
  IsDistinct, All-without, All-modify, All-modify_same, modify-IsDistinct, without-IsDistinct,
}

module _ {E : Type 0} where
  -- A paused action waits for nothing.
  abbrev pub IsStill : Action E → Type 0
  IsStill a = a.paused ≡ true → a.armed ≡ none

  pub record IsQuiet (h : Handler E) : Type 0 where
    pub still : All IsStill h.actions
    pub distinct : IsDistinct h.actions

  pub Both :
      (P Q : Action E → Type 0) (l : List (Action E)) → All P l → All Q l → All (λ a. P a × Q a) l
  Both P Q [] h k = tt
  Both P Q (a ∷ rest) h k = ((h.0, k.0), Both P Q rest h.1 k.1)

  apart_other :
      (ptr : ℕ) (a : Action E) (l : List (Action E))
      → All (λ (b : Action E). ptr ≢ b.ptr) l
      → All (λ (b : Action E). b.ptr ≡ ptr → b.paused ≡ a.paused) l
  apart_other ptr a [] h = tt
  apart_other ptr a (b ∷ rest) h = ((λ e. absurd (h.0 (sym e))), apart_other ptr a rest h.1)

  -- A pointer finds the only action that it belongs to.
  pub find_only :
      (ptr : ℕ) (a : Action E) (l : List (Action E))
      → find ptr l ≡ some a
      → IsDistinct l
      → All (λ (b : Action E). b.ptr ≡ ptr → b.paused ≡ a.paused) l
  unfolding find
  find_only ptr a [] e d = tt
  find_only ptr a (b ∷ rest) e d = elim (Bool-cases (b.ptr == ptr)) [
    | inl q ↦ (
      (λ _. ground (arith, e, q)),
      apart_other ptr a rest (let h = (==_iff b.ptr ptr).0 q in rw h at d.0),
    )
    | inr q ↦
        ((λ h. absurd (ground (arith, q, h))), find_only ptr a rest (ground (arith, e, q)) d.1)
  ]

  -- Still, and running if it is the action that fired.
  abbrev Firing : ℕ → Action E → Type 0
  Firing ptr a = IsStill a × (a.ptr ≡ ptr → a.paused ≡ false)

  mark_sent-Firing :
      (ptr : ℕ) (now : ℤ) (a : Action E) → Firing ptr a → Firing ptr (mark_sent now a)
  unfolding mark_sent
  mark_sent-Firing ptr now a h = h

  mark_sent-IsStill : (now : ℤ) (a : Action E) → IsStill a → IsStill (mark_sent now a)
  unfolding mark_sent
  mark_sent-IsStill now a h = h

  set_payload-Firing :
      (ptr : ℕ) (p : List ℕ) (a : Action E) → Firing ptr a → Firing ptr (set_payload p a)
  unfolding set_payload
  set_payload-Firing ptr p a h = h

  schedule-IsStill : (ptr : ℕ) (a : Action E) → a.ptr ≡ ptr → Firing ptr a → IsStill (schedule a)
  unfolding schedule
  schedule-IsStill ptr a e h = λ q. cc (h.1 e)

  All-Firing-IsStill : (ptr : ℕ) (l : List (Action E)) → All (Firing ptr) l → All IsStill l
  All-Firing-IsStill ptr [] h = tt
  All-Firing-IsStill ptr (a ∷ rest) h = (h.0.0, All-Firing-IsStill ptr rest h.1)

  mark_sent-ptr : (now : ℤ) (a : Action E) → (mark_sent now a).ptr ≡ a.ptr
  unfolding mark_sent
  mark_sent-ptr now a = refl

  schedule-ptr : (a : Action E) → (schedule a).ptr ≡ a.ptr
  unfolding schedule
  schedule-ptr a = refl

  pub set_payload-ptr : (p : List ℕ) (a : Action E) → (set_payload p a).ptr ≡ a.ptr
  unfolding set_payload
  set_payload-ptr p a = refl

  -- Sending and waiting again, as every callback of a periodic action ends.
  fire_again :
      (now : ℤ) (h : Handler E) (a : Action E)
      → IsDistinct h.actions
      → All (Firing a.ptr) h.actions
      → IsQuiet (reschedule a.ptr (fire now h a))
  unfolding fire reschedule rebuild_snapshot
  fire_again now h a d q = record {
    still =
        All-modify (Firing a.ptr) IsStill schedule a.ptr (modify (mark_sent now) a.ptr h.actions)
          (schedule-IsStill a.ptr) (λ b f. f.0)
          (All-modify_same (Firing a.ptr) (mark_sent now) a.ptr h.actions
            (λ b _ f. mark_sent-Firing a.ptr now b f) q);
    distinct =
        modify-IsDistinct schedule schedule-ptr a.ptr (modify (mark_sent now) a.ptr h.actions)
          (modify-IsDistinct (mark_sent now) (mark_sent-ptr now) a.ptr h.actions d);
  }

  pub complete_kind-IsQuiet :
      (fp : Ieee) (encode : E → Double → List ℕ) (now : ℤ) (h : Handler E) (a : Action E)
      (k : Kind E)
      → IsDistinct h.actions
      → All (Firing a.ptr) h.actions
      → IsQuiet (complete_kind fp encode now h a k)
  unfolding complete_kind fire on_action_done rebuild_snapshot
  complete_kind-IsQuiet fp encode now h a single d q = record {
    still = All-without IsStill a.ptr _ (
        All-modify_same IsStill (mark_sent now) a.ptr h.actions (λ b _ s. mark_sent-IsStill now b s)
          (All-Firing-IsStill a.ptr h.actions q));
    distinct =
        without-IsDistinct a.ptr _
          (modify-IsDistinct (mark_sent now) (mark_sent-ptr now) a.ptr h.actions d);
  }
  complete_kind-IsQuiet fp encode now h a (periodic p) d q = fire_again now h a d q
  complete_kind-IsQuiet fp encode now h a (sin i e amp sp o r acc) d q =
      let bytes = encode e (wave fp now amp sp o r acc) in
      let h' : Handler E = record h { actions = modify (set_payload bytes) a.ptr h.actions } in
      fire_again now h' (set_payload bytes a)
        (modify-IsDistinct (set_payload bytes) (set_payload-ptr bytes) a.ptr h.actions d)
        (All-modify_same (Firing a.ptr) (set_payload bytes) a.ptr h.actions
          (λ b _ f. set_payload-Firing a.ptr bytes b f) q)
