-- ===== src/Action/Handler/Pausing.antt =====
-- Pausing and timers: src/action/Action.cpp and ActionHandler.cpp. `IsQuiet` is what pausing means to
-- guarantee; it holds as long as every wait that completes runs before the next posted operation, and
-- a completion that runs later breaks it.
use caneo.Action.Handler.Quiet.{
  find_only, Both, complete_kind-IsQuiet, set_payload-ptr, IsStill, IsQuiet,
}
use caneo.Common.{
  ◌⊎◌, Option, Option-cases, ℕ, ◌≡◌, refl, ◌≢◌, inl, inr, false, none, some, List, [], ◌∷◌, ◌++◌,
  arith, ◌==◌, Bool-cases, All,
}
use caneo.Common.Int.{ℤ}
use caneo.Common.OrderedMap.{nat_key, text_key, pair_key}
use caneo.Common.Ieee.{Double, Ieee}
use caneo.Action.{
  Kind, single, periodic, sin, wave, Action, start, pause, switch_pause, set_sin_param, set_payload,
}
use caneo.Action.Handler.{
  fire, on_action_done, reschedule, Handler, modify_at, rebuild_snapshot, find, complete_kind,
  on_wait, Task, perform, add, add_paused, remove, toggle, sin_param, payload, completed,
}
use caneo.Action.Handler.Places.{
  IsDistinct, All-erase_at, All-append, All-modify_at, modify_at-IsDistinct, erase_at-IsDistinct,
  append-IsDistinct,
}

module _ {E : Type 0} where
  -- What the program and Boost.Asio see to: a new action is a new object that is not paused, and the handler of a
  -- wait runs only while the wait is pending, or when its action is gone.
  abbrev pub IsTimely : Handler E → Task E → Type 0
  IsTimely h (add a) = (a.paused ≡ false) × All (λ (b : Action E). b.ptr ≢ a.ptr) h.actions
  IsTimely h (add_paused a) = (a.paused ≡ false) × All (λ (b : Action E). b.ptr ≢ a.ptr) h.actions
  IsTimely h (completed ptr) = All (λ (a : Action E). a.ptr ≡ ptr → a.armed ≢ none) h.actions
  IsTimely h _ = Unit

  IsStill-start : (a : Action E) → a.paused ≡ false → IsStill (start a)
  unfolding start
  IsStill-start a e = λ q. cc

  IsStill-pause : (fp : Ieee) (now : ℤ) (a : Action E) → IsStill (pause fp now a)
  unfolding pause
  IsStill-pause fp now a = λ q. refl

  IsStill-switch_pause : (fp : Ieee) (now : ℤ) (a : Action E) → IsStill (switch_pause fp now a)
  unfolding switch_pause
  IsStill-switch_pause fp now a = ground arith

  switch_pause-ptr : (fp : Ieee) (now : ℤ) (a : Action E) → (switch_pause fp now a).ptr ≡ a.ptr
  unfolding switch_pause
  switch_pause-ptr fp now a = ground arith

  pause-start-ptr : (fp : Ieee) (now : ℤ) (a : Action E) → (pause fp now (start a)).ptr ≡ a.ptr
  unfolding pause start
  pause-start-ptr fp now a = refl

  set_sin_param-IsStill :
      (fp : Ieee) (i : ℕ) (v : Double) (a : Action E) → IsStill a → IsStill (set_sin_param fp i v a)
  unfolding set_sin_param
  set_sin_param-IsStill fp i v a h = h

  set_sin_param-ptr :
      (fp : Ieee) (i : ℕ) (v : Double) (a : Action E) → (set_sin_param fp i v a).ptr ≡ a.ptr
  unfolding set_sin_param
  set_sin_param-ptr fp i v a = refl

  set_payload-IsStill : (p : List ℕ) (a : Action E) → IsStill a → IsStill (set_payload p a)
  unfolding set_payload
  set_payload-IsStill p a h = h

  append_quiet :
      (l : List (Action E)) (a a' : Action E)
      → a'.ptr ≡ a.ptr
      → IsStill a'
      → All (λ (b : Action E). b.ptr ≢ a.ptr) l
      → All IsStill l
      → IsDistinct l
      → All IsStill (l ++ (a' ∷ [])) × IsDistinct (l ++ (a' ∷ []))
  append_quiet l a a' e s new still d =
      (All-append IsStill l (a' ∷ []) still (s, tt), append-IsDistinct l a' (rw e new) d)

  modify_at_quiet :
      (f : Action E → Action E) (l : List (Action E)) (i : ℕ)
      → ((a : Action E) → (f a).ptr ≡ a.ptr)
      → ((a : Action E) → IsStill a → IsStill (f a))
      → All IsStill l
      → IsDistinct l
      → All IsStill (modify_at f l i) × IsDistinct (modify_at f l i)
  modify_at_quiet f l i same keep still d =
      (All-modify_at IsStill f l i keep still, modify_at-IsDistinct f same l i d)

  find-ptr : (ptr : ℕ) (a : Action E) (l : List (Action E)) → find ptr l ≡ some a → a.ptr ≡ ptr
  unfolding find
  find-ptr ptr a [] e = cc
  find-ptr ptr a (b ∷ rest) e = ground (arith, find-ptr ptr a rest)

  find-All :
      (P : Action E → Type 0) (ptr : ℕ) (a : Action E) (l : List (Action E))
      → find ptr l ≡ some a
      → All P l
      → P a
  unfolding find
  find-All P ptr a [] e h = cc
  find-All P ptr a (b ∷ rest) e h = elim (Bool-cases (b.ptr == ptr)) [
    | inl q ↦ let b≡a : b ≡ a = ground (arith, e, q) in rw b≡a at h.0
    | inr q ↦ find-All P ptr a rest (ground (arith, e, q)) h.1
  ]

  abbrev pub IsIn : Action E → List (Action E) → Type 0
  IsIn a [] = ⊥
  IsIn a (b ∷ rest) = (b ≡ a) ⊎ IsIn a rest

  -- Nothing is sent, or one frame under the identifier of an action that is not paused.
  abbrev pub Sends : Handler E → Handler E → Type 0
  Sends h h' =
      (h'.sent ≡ h.sent)
      ⊎ ((a : Action E) × (bytes : List ℕ) × IsIn a h.actions
          × (a.paused ≡ false)
          × (h'.sent
              ≡ h.sent
                ++ (record { interface = a.interface; id = a.msg_id; payload = bytes } ∷ [])))

  complete_kind-Sends :
      (fp : Ieee) (encode : E → Double → List ℕ) (now : ℤ) (h : Handler E) (a : Action E)
      (k : Kind E)
      → IsIn a h.actions
      → a.paused ≡ false
      → Sends h (complete_kind fp encode now h a k)
  unfolding complete_kind fire on_action_done reschedule rebuild_snapshot set_payload
  complete_kind-Sends fp encode now h a single m e = inr (a, a.payload, m, e, refl)
  complete_kind-Sends fp encode now h a (periodic p) m e = inr (a, a.payload, m, e, refl)
  complete_kind-Sends fp encode now h a (sin i en amp sp o r acc) m e =
      inr (a, encode en (wave fp now amp sp o r acc), m, e, refl)

  find-IsIn : (ptr : ℕ) (a : Action E) (l : List (Action E)) → find ptr l ≡ some a → IsIn a l
  unfolding find
  find-IsIn ptr a [] e = cc
  find-IsIn ptr a (b ∷ rest) e = elim (Bool-cases (b.ptr == ptr)) [
    | inl q ↦ inl (ground (arith, e, q))
    | inr q ↦ inr (find-IsIn ptr a rest (ground (arith, e, q)))
  ]

  -- What a task leaves: a handler in which every paused action is without a pending wait, or nothing, where a wait
  -- completed whose action is gone.
  abbrev pub After : Handler E → Task E → Option (Handler E) → Type 0
  After h t none = (ptr : ℕ) × (t ≡ completed ptr) × (find ptr h.actions ≡ none)
  After h t (some h') = IsQuiet h' × Sends h h'

  -- If new actions are new objects that are not paused, and waits complete only while they are pending, every task
  -- keeps the actions distinct and the paused ones without a pending wait, and sends at most one frame, for an
  -- action that is not paused. It uses an action that is gone only where a wait completes after its action was
  -- removed.
  pub perform-IsQuiet :
      (fp : Ieee) (encode : E → Double → List ℕ) (now : ℤ) (h : Handler E) (t : Task E)
      → IsQuiet h
      → IsTimely h t
      → After h t (perform fp encode now h t)
  unfolding perform rebuild_snapshot
  perform-IsQuiet fp encode now h (add a) q ok =
      let r =
        append_quiet h.actions a (start a) refl (IsStill-start a ok.0) ok.1 q.still q.distinct in
      (record { still = r.0; distinct = r.1 }, inl refl)
  perform-IsQuiet fp encode now h (add_paused a) q ok =
      let r =
        append_quiet h.actions a (pause fp now (start a)) (pause-start-ptr fp now a)
          (IsStill-pause fp now (start a)) ok.1 q.still q.distinct in
      (record { still = r.0; distinct = r.1 }, inl refl)
  perform-IsQuiet fp encode now h (remove idx) q ok = (
    ground (
      arith,
      All-erase_at IsStill h.actions idx q.still,
      erase_at-IsDistinct h.actions idx q.distinct,
    ),
    inl (ground arith),
  )
  perform-IsQuiet fp encode now h (toggle idx) q ok =
      let r =
        modify_at_quiet (switch_pause fp now) h.actions idx (switch_pause-ptr fp now)
          (λ a _. IsStill-switch_pause fp now a) q.still q.distinct in
      (ground (arith, r), inl (ground arith))
  perform-IsQuiet fp encode now h (sin_param idx param v) q ok =
      let r =
        modify_at_quiet (set_sin_param fp param v) h.actions idx (set_sin_param-ptr fp param v)
          (set_sin_param-IsStill fp param v) q.still q.distinct in
      (ground (arith, r), inl (ground arith))
  perform-IsQuiet fp encode now h (payload idx p) q ok =
      let r =
        modify_at_quiet (set_payload p) h.actions idx (set_payload-ptr p) (set_payload-IsStill p)
          q.still q.distinct in
      (ground (arith, r), inl (ground arith))
  perform-IsQuiet fp encode now h (completed ptr) q ok = elim (Option-cases (find ptr h.actions)) [
    | inl gone ↦ rw (gone, on_wait) (ptr, refl, gone)
    | inr (a, found) ↦
        let same = find-ptr ptr a h.actions found in
        let armed =
          find-All (λ (b : Action E). b.ptr ≡ ptr → b.armed ≢ none) ptr a h.actions found ok same in
        let running : a.paused ≡ false = elim (Bool-cases a.paused) [
          | inl e ↦ absurd (armed (find-All IsStill ptr a h.actions found q.still e))
          | inr e ↦ e
        ] in
        rw (found, on_wait)
          (
            complete_kind-IsQuiet fp encode now h a a.kind q.distinct (
                rw same (
                  Both IsStill (λ b. b.ptr ≡ ptr → b.paused ≡ false) h.actions q.still
                    (rw running at (find_only ptr a h.actions found q.distinct)))),
            complete_kind-Sends fp encode now h a a.kind (find-IsIn ptr a h.actions found) running,
          )
  ]
