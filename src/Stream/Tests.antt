-- ===== src/Stream/Tests.antt =====
-- A client of every interface, and the theorems on its call.
use caneo.Common.{◌≡◌, refl, ◌⊎◌, Bool, true, false, List, [], ◌∷◌, ◌++◌}
use caneo.Common.Text.{codes}
use caneo.Common.Int.{pos}
use caneo.Common.OrderedMap.{nat_key, text_key, pair_key}
use caneo.Stream.{
  RawCanFrame, asleep, returned, Subscriber, subscribe, wants, holds_lock, push, end, advance,
}
use caneo.Stream.Steps.{broadcasts, runs, Reach, here, later}
use caneo.Stream.Delivery.{in_hand, received_in_order}
use caneo.Stream.Ending.{run_thread, shutdown_ends, shutdown_unheard}
use caneo.Stream.Heard.{broadcast_heard}

abbrev message : RawCanFrame
message = record {
  interface = codes "can0";
  can_id = 1;
  dlc = 1;
  bytes = 7 ∷ [];
  timestamp_us = pos 3;
}

abbrev second : RawCanFrame
second = record message { bytes = 8 ∷ [] }

abbrev client : Subscriber
client = subscribe []

-- Two frames are pushed, and the first is written.
abbrev busy : Subscriber
busy = run_thread (λ _. true) 4 (push (push client message) second)

one_received : (busy.received ≡ message ∷ []) × (busy.queue ≡ second ∷ [])
unfolding subscribe push advance
one_received = (refl, refl)

busy_reached : Reach client busy
unfolding subscribe push advance wants holds_lock
busy_reached =
    later
      (later
        (later
          (later
            (later (later here (broadcasts message refl refl refl))
              (broadcasts second refl refl refl))
            (runs true))
          (runs true))
        (runs true))
      (runs true)

received_in_order_example :
    (rest : List RawCanFrame) × (busy.pushed ≡ busy.received ++ rest)
    × ((busy.done ≡ true) ⊎ (rest ≡ in_hand busy.place ++ busy.queue))
received_in_order_example = received_in_order [] busy busy_reached

-- Nothing was pushed, and the test of the wait has failed.
abbrev drowsy : Subscriber
drowsy = run_thread (λ _. true) 2 client

drowsy_reached : Reach client drowsy
drowsy_reached = later (later here (runs true)) (runs true)

shutdown_unheard_example :
    (t : Subscriber) × Reach drowsy t
    × (t.done ≡ true)
    × (t.place ≡ asleep)
    × ((ok : Bool) → advance ok t ≡ t)
unfolding subscribe advance
shutdown_unheard_example = shutdown_unheard drowsy refl refl

shutdown_ends_example : (run_thread (λ _. false) 5 (end busy)).place ≡ returned
unfolding subscribe push advance
shutdown_ends_example = shutdown_ends busy (λ _. false) refl

broadcast_heard_example : drowsy.queue ≡ []
unfolding subscribe advance
broadcast_heard_example = broadcast_heard [] drowsy drowsy_reached refl
