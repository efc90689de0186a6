-- ===== src/Stream/Delivery.antt =====
-- What a client of src/grpc/CanStreamService.cpp receives.
use caneo.Common.{
  if_all, ◌≡◌, refl, ap, ◌∙◌, ◌⊎◌, inl, inr, Bool, true, false, not, ◌||◌, List, [], ◌∷◌, ◌++◌,
  arith, Bool-cases, is_empty,
}
use mathlib.Core.List.{append_assoc}
use caneo.Common.Text.{Text}
use caneo.Common.OrderedMap.{nat_key, text_key, pair_key}
use caneo.Stream.{
  RawCanFrame, Place, at_loop, testing, before_sleep, asleep, woken, draining, writing, leaving,
  returned, Subscriber, subscribe, notify, push, end, drain, advance_at, advance,
}
use caneo.Stream.Steps.{Step, broadcasts, shuts_down, wakes, runs, Reach, here, later}

-- The frame that a thread is writing.
abbrev pub in_hand : Place → List RawCanFrame
in_hand (writing f) = f ∷ []
in_hand _ = []

in_hand-notify : (p : Place) → in_hand (notify p) ≡ in_hand p
unfolding notify
in_hand-notify asleep = refl
in_hand-notify at_loop = refl
in_hand-notify testing = refl
in_hand-notify before_sleep = refl
in_hand-notify woken = refl
in_hand-notify draining = refl
in_hand-notify (writing f) = refl
in_hand-notify leaving = refl
in_hand-notify returned = refl

-- Every frame that was pushed is received, dropped, in hand or queued, in this order, and one is dropped only
-- when the call ends.
pub record IsInOrder (s : Subscriber) : Type 0 where
  pub parts : s.pushed ≡ s.received ++ (s.dropped ++ (in_hand s.place ++ s.queue))
  pub ended : is_empty s.dropped ≡ false → (s.done ≡ true) × (in_hand s.place ≡ [])

push-IsInOrder : (s : Subscriber) (f : RawCanFrame) → IsInOrder s → IsInOrder (push s f)
unfolding push
push-IsInOrder s f v = record {
  parts = rw (in_hand-notify s.place) (ap (λ l. l ++ (f ∷ [])) v.parts ∙ simp append_assoc);
  ended = rw (in_hand-notify s.place) v.ended;
}

end-IsInOrder : (s : Subscriber) → IsInOrder s → IsInOrder (end s)
unfolding end
end-IsInOrder s v = record {
  parts = rw (in_hand-notify s.place) v.parts;
  ended = λ h. (refl, rw (in_hand-notify s.place) (v.ended h).1);
}

-- A move that leaves the frames where they are.
moved-IsInOrder :
    (s : Subscriber) (p : Place)
    → in_hand p ≡ in_hand s.place
    → IsInOrder s
    → IsInOrder (record s { place = p })
moved-IsInOrder s p e v = record { parts = rw e v.parts; ended = rw e v.ended }

drain-IsInOrder :
    (s : Subscriber) (q : List RawCanFrame)
    → s.queue ≡ q
    → s.place ≡ draining
    → IsInOrder s
    → IsInOrder (drain s q)
unfolding drain
drain-IsInOrder s [] e h v = moved-IsInOrder s at_loop (rw h refl) v
drain-IsInOrder s (f ∷ rest) e h v =
    if_all IsInOrder s.done (λ _. moved-IsInOrder s at_loop (rw h refl) v)
      (λ k. record {
        parts = rw (e, h) at v.parts;
        ended = λ d. absurd (ground (arith, k, (v.ended d).0));
      })

is_empty-nil : (l : List RawCanFrame) → is_empty l ≡ true → l ≡ []
is_empty-nil [] h = refl
is_empty-nil (x ∷ l) h = cc

-- While a frame is in hand, none was dropped.
none_dropped :
    (s : Subscriber) (f : RawCanFrame) → s.place ≡ writing f → IsInOrder s → s.dropped ≡ []
none_dropped s f e v = elim (Bool-cases (is_empty s.dropped)) [
  | inl h ↦ is_empty-nil s.dropped h
  | inr h ↦ let q = (v.ended h).1 in absurd (ground (arith, rw e at q))
]

advance_at-IsInOrder :
    (p : Place) (ok : Bool) (s : Subscriber)
    → s.place ≡ p
    → IsInOrder s
    → IsInOrder (advance_at p ok s)
unfolding advance_at drain
advance_at-IsInOrder at_loop ok s e v =
    if_all IsInOrder s.done (λ _. moved-IsInOrder s leaving (rw e refl) v)
      (λ _. moved-IsInOrder s testing (rw e refl) v)
advance_at-IsInOrder testing ok s e v =
    if_all IsInOrder (not (is_empty s.queue) || s.done)
      (λ _. moved-IsInOrder s draining (rw e refl) v)
      (λ _. moved-IsInOrder s before_sleep (rw e refl) v)
advance_at-IsInOrder before_sleep ok s e v = moved-IsInOrder s asleep (rw e refl) v
advance_at-IsInOrder asleep ok s e v = v
advance_at-IsInOrder woken ok s e v = moved-IsInOrder s testing (rw e refl) v
advance_at-IsInOrder draining ok s e v = drain-IsInOrder s s.queue refl e v
advance_at-IsInOrder (writing f) ok s e v =
    if_all IsInOrder ok
      (λ _. record {
        parts =
            rw (e, none_dropped s f e v) at v.parts ∙ rw (none_dropped s f e v) (simp append_assoc);
        ended = λ d. absurd (ground (arith, d, none_dropped s f e v));
      })
      (λ _. record { parts = rw e at v.parts ∙ simp append_assoc; ended = λ _. (refl, refl) })
advance_at-IsInOrder leaving ok s e v = record { parts = rw e at v.parts; ended = rw e at v.ended }
advance_at-IsInOrder returned ok s e v = v

Step-IsInOrder : {s t : Subscriber} → Step s t → IsInOrder s → IsInOrder t
unfolding advance
Step-IsInOrder {s} (broadcasts f r w h) v = push-IsInOrder s f v
Step-IsInOrder {s} (shuts_down r) v = end-IsInOrder s v
Step-IsInOrder {s} (wakes e) v = moved-IsInOrder s woken (rw e refl) v
Step-IsInOrder {s} (runs ok) v = advance_at-IsInOrder s.place ok s refl v

Reach-IsInOrder : {s t : Subscriber} → IsInOrder s → Reach s t → IsInOrder t
Reach-IsInOrder v here = v
Reach-IsInOrder v (later r st) = Step-IsInOrder st (Reach-IsInOrder v r)

nothing_dropped : (s : Subscriber) → s.done ≡ false → IsInOrder s → s.dropped ≡ []
nothing_dropped s e v = elim (Bool-cases (is_empty s.dropped)) [
  | inl h ↦ is_empty-nil s.dropped h
  | inr h ↦ let q = (v.ended h).0 in absurd (ground (arith, e, q))
]

-- In every order of the threads, a client has received the frames that were pushed for it from the first on, in
-- their order and each once; until the call is to end, the others are the one in hand and those in the queue.
pub received_in_order :
    (filter : Text) (s : Subscriber)
    → Reach (subscribe filter) s
    → (rest : List RawCanFrame) × (s.pushed ≡ s.received ++ rest)
      × ((s.done ≡ true) ⊎ (rest ≡ in_hand s.place ++ s.queue))
unfolding subscribe
received_in_order filter s r =
    let v = Reach-IsInOrder (record { parts = refl; ended = λ h. cc }) r in
    (
      s.dropped ++ (in_hand s.place ++ s.queue),
      v.parts,
      elim (Bool-cases s.done) [ inl e ↦ inl e | inr e ↦ inr (rw (nothing_dropped s e v) refl) ],
    )
