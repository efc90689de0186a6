-- ===== src/Stream/Ending.antt =====
-- How Subscribe calls end, and how one does not: src/grpc/CanStreamService.cpp.
use caneo.Common.{ℕ, zero, suc, ◌≡◌, refl, ap, ◌∙◌, Bool, true, false, List, [], ◌∷◌, arith}
use caneo.Common.OrderedMap.{nat_key, text_key, pair_key}
use caneo.Stream.{
  RawCanFrame, Place, at_loop, testing, before_sleep, asleep, woken, draining, writing, leaving,
  returned, Subscriber, notify, end, drain, advance_at, advance,
}
use caneo.Stream.Steps.{shuts_down, runs, Reach, here, later}

-- `n` moves of the thread of a call, with the results of its writes.
abbrev pub run_thread : (ℕ → Bool) → ℕ → Subscriber → Subscriber
run_thread oks zero s = s
run_thread oks (suc n) s = run_thread (λ i. oks (suc i)) n (advance (oks 0) s)

-- Behind the test of the wait.
abbrev pub goes_to_sleep : Place → Bool
goes_to_sleep before_sleep = true
goes_to_sleep _ = false

-- The next place of a call that is to end.
abbrev next_place : Place → Place
next_place at_loop = leaving
next_place testing = draining
next_place before_sleep = asleep
next_place asleep = asleep
next_place woken = testing
next_place draining = at_loop
next_place (writing f) = draining
next_place leaving = returned
next_place returned = returned

drain_done :
    (s : Subscriber) (q : List RawCanFrame)
    → s.done ≡ true
    → ((drain s q).place ≡ at_loop) × ((drain s q).done ≡ true)
unfolding drain
drain_done s [] d = (refl, d)
drain_done s (f ∷ rest) d = ground (arith, d)

advance_at_done :
    (p : Place) (ok : Bool) (s : Subscriber)
    → s.place ≡ p
    → s.done ≡ true
    → ((advance_at p ok s).place ≡ next_place p) × ((advance_at p ok s).done ≡ true)
unfolding advance_at
advance_at_done at_loop ok s e d = ground (arith, d)
advance_at_done testing ok s e d = ground (arith, d)
advance_at_done before_sleep ok s e d = (refl, d)
advance_at_done asleep ok s e d = (e, d)
advance_at_done woken ok s e d = (refl, d)
advance_at_done draining ok s e d = drain_done s s.queue d
advance_at_done (writing f) ok s e d = ground (arith, d)
advance_at_done leaving ok s e d = (refl, d)
advance_at_done returned ok s e d = (e, d)

abbrev places_on : ℕ → Place → Place
places_on zero p = p
places_on (suc n) p = places_on n (next_place p)

place-run_thread :
    (n : ℕ) (oks : ℕ → Bool) (s : Subscriber)
    → s.done ≡ true
    → (run_thread oks n s).place ≡ places_on n s.place
unfolding advance
place-run_thread zero oks s d = refl
place-run_thread (suc n) oks s d =
    let (e, d') = advance_at_done s.place (oks 0) s refl d in
    place-run_thread n (λ i. oks (suc i)) (advance (oks 0) s) d' ∙ ap (places_on n) e

five_places : (p : Place) → goes_to_sleep p ≡ false → places_on 5 (notify p) ≡ returned
unfolding notify
five_places at_loop h = refl
five_places testing h = refl
five_places before_sleep h = cc
five_places asleep h = refl
five_places woken h = refl
five_places draining h = refl
five_places (writing f) h = refl
five_places leaving h = refl
five_places returned h = refl

-- After shutdown, wherever the thread stood but between the test of its wait and its sleep, five of its moves end
-- the call, whatever its writes return.
pub shutdown_ends :
    (s : Subscriber) (oks : ℕ → Bool)
    → goes_to_sleep s.place ≡ false
    → (run_thread oks 5 (end s)).place ≡ returned
unfolding end
shutdown_ends s oks h = place-run_thread 5 oks (end s) refl ∙ five_places s.place h

unheard :
    (p : Place) (s : Subscriber)
    → p ≡ before_sleep
    → s.place ≡ p
    → ((advance true (end s)).place ≡ asleep) × ((advance true (end s)).done ≡ true)
unfolding advance advance_at end notify
unheard p s e k = rw (k, e) (refl, refl)

stays : (ok : Bool) (t : Subscriber) → t.place ≡ asleep → advance ok t ≡ t
unfolding advance advance_at
stays ok t e = rw e refl

-- Whenever shutdown comes between the test of the wait and the sleep, which it may since it does not take the
-- mutex, the thread then sleeps with its flag set, and no move of its own ends the call.
pub shutdown_unheard :
    (s : Subscriber)
    → s.place ≡ before_sleep
    → s.registered ≡ true
    → (t : Subscriber) × Reach s t
      × (t.done ≡ true)
      × (t.place ≡ asleep)
      × ((ok : Bool) → advance ok t ≡ t)
shutdown_unheard s e r =
    let (at, d) = unheard s.place s e refl in
    (
      advance true (end s),
      later (later here (shuts_down r)) (runs true),
      d,
      at,
      (λ ok. stays ok (advance true (end s)) at),
    )
