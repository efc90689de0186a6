-- ===== src/Stream/Heard.antt =====
-- No broadcast is missed: src/grpc/CanStreamService.cpp.
use caneo.Common.{◌≡◌, refl, Bool, true, false, not, ◌&&◌, List, [], ◌∷◌, ◌++◌, arith, is_empty}
use caneo.Common.Text.{Text}
use caneo.Common.OrderedMap.{nat_key, text_key, pair_key}
use caneo.Stream.{
  RawCanFrame, Place, at_loop, testing, before_sleep, asleep, woken, draining, writing, leaving,
  returned, Subscriber, subscribe, notify, holds_lock, push, end, drain, advance_at, advance,
}
use caneo.Stream.Steps.{Step, broadcasts, shuts_down, wakes, runs, Reach, here, later}

-- Whether a frame waits for a thread that sleeps.
abbrev pub rests : Place → Bool
rests before_sleep = true
rests asleep = true
rests _ = false

abbrev IsAwake : Subscriber → Type 0
IsAwake s = (rests s.place && not (is_empty s.queue)) ≡ false

notify-IsAwake :
    (p : Place) (q : List RawCanFrame)
    → holds_lock p ≡ false
    → (rests (notify p) && not (is_empty q)) ≡ false
unfolding notify holds_lock
notify-IsAwake at_loop q h = refl
notify-IsAwake testing q h = cc
notify-IsAwake before_sleep q h = cc
notify-IsAwake asleep q h = refl
notify-IsAwake woken q h = refl
notify-IsAwake draining q h = refl
notify-IsAwake (writing f) q h = refl
notify-IsAwake leaving q h = refl
notify-IsAwake returned q h = refl

notify_kept :
    (p : Place) (q : List RawCanFrame)
    → (rests p && not (is_empty q)) ≡ false
    → (rests (notify p) && not (is_empty q)) ≡ false
unfolding notify
notify_kept at_loop q h = refl
notify_kept testing q h = refl
notify_kept before_sleep q h = h
notify_kept asleep q h = refl
notify_kept woken q h = refl
notify_kept draining q h = refl
notify_kept (writing f) q h = refl
notify_kept leaving q h = refl
notify_kept returned q h = refl

drain-IsAwake : (s : Subscriber) (q : List RawCanFrame) → IsAwake (drain s q)
unfolding drain
drain-IsAwake s [] = refl
drain-IsAwake s (f ∷ rest) = ground arith

advance_at-IsAwake :
    (p : Place) (ok : Bool) (s : Subscriber) → s.place ≡ p → IsAwake s → IsAwake (advance_at p ok s)
unfolding advance_at
advance_at-IsAwake at_loop ok s e v = ground arith
advance_at-IsAwake testing ok s e v = ground arith
advance_at-IsAwake before_sleep ok s e v = rw e at v
advance_at-IsAwake asleep ok s e v = v
advance_at-IsAwake woken ok s e v = refl
advance_at-IsAwake draining ok s e v = drain-IsAwake s s.queue
advance_at-IsAwake (writing f) ok s e v = ground arith
advance_at-IsAwake leaving ok s e v = refl
advance_at-IsAwake returned ok s e v = v

Step-IsAwake : {s t : Subscriber} → Step s t → IsAwake s → IsAwake t
unfolding advance end push
Step-IsAwake {s} (broadcasts f r w h) v = notify-IsAwake s.place (s.queue ++ (f ∷ [])) h
Step-IsAwake {s} (shuts_down r) v = notify_kept s.place s.queue v
Step-IsAwake {s} (wakes e) v = refl
Step-IsAwake {s} (runs ok) v = advance_at-IsAwake s.place ok s refl v

Reach-IsAwake : {s t : Subscriber} → IsAwake s → Reach s t → IsAwake t
Reach-IsAwake v here = v
Reach-IsAwake v (later r st) = Step-IsAwake st (Reach-IsAwake v r)

-- In every order of the threads, no frame waits in the queue of a thread that sleeps or is about to: a broadcast
-- is never missed.
pub broadcast_heard :
    (filter : Text) (s : Subscriber)
    → Reach (subscribe filter) s
    → rests s.place ≡ true
    → s.queue ≡ []
unfolding subscribe
broadcast_heard filter s r h = nothing_left s.queue (ground (arith, h, Reach-IsAwake refl r))
  where
    nothing_left : (q : List RawCanFrame) → is_empty q ≡ true → q ≡ []
    nothing_left [] k = refl
    nothing_left (f ∷ q) k = cc
