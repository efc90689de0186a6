-- ===== src/Bus/Tests.antt =====
-- Frames on the bus and over the network, and the theorems at them.
use caneo.Bus.Reader.{
  Shared, reading, finished, not_called, started_reader, next, move, store_stop, cancel_call,
  Reached, at_start, after, moves, stop_stores, stop_cancels, run_on, stop_ends,
}
use caneo.Bus.{false, true, Stamps, Received, nothing, runt, complete, chosen, read_all}
use caneo.Common.{ℕ, ◌≡◌, refl, none, some, List, [], ◌∷◌, ◌++◌}
use caneo.Common.Text.{codes}
use caneo.Common.Int.{ℤ, pos}
use caneo.Common.OrderedMap.{nat_key, text_key, pair_key}
use caneo.Frame.{CanFrame}
use caneo.Bus.Open.{Answers, nobody, owner, rightful, new_socket, new_socket_lem}
use caneo.Bus.Travel.{complete_frames, read_all_lem}

abbrev stamps : Stamps
stamps = record {
  software = record { tv_sec = pos 4; tv_nsec = pos 5 };
  hardware = record { tv_sec = pos 0; tv_nsec = pos 0 };
}

software_stamp : chosen (some stamps) ≡ some (pos 4000000005)
unfolding chosen
software_stamp = refl

abbrev long_data : List ℕ
long_data = 1 ∷ 2 ∷ 3 ∷ 4 ∷ 5 ∷ 6 ∷ 7 ∷ 8 ∷ 9 ∷ []

abbrev frame : CanFrame
frame = record {
  header = record { id = 291; interface = codes "can0"; dlc = 2 };
  payload = 7 ∷ 8 ∷ [];
  decoded = [];
  msg_name = codes "M";
  timestamp = pos 5;
}

abbrev reads : List (ℤ × Received)
reads = (pos 1, complete (record { can_id = 1; can_dlc = 0; bytes = [] }) none) ∷ (pos 2, runt) ∷ []

read_all_lem_example :
    read_all (codes "can0") (reads ++ ((pos 3, nothing) ∷ reads))
    ≡ complete_frames (codes "can0") reads
read_all_lem_example = read_all_lem (codes "can0") reads reads (pos 3) refl

-- The kernel refuses to bind the socket.
abbrev answers : Answers
answers = record {
  fd = some 5;
  index = true;
  bound = false;
  own = true;
  stamped = false;
  assigned = true;
}

new_socket_lem_example :
    owner nobody (new_socket (codes "can0") answers).0
    ≡ rightful (some 5) (new_socket (codes "can0") answers).1
new_socket_lem_example = new_socket_lem (codes "can0") answers

-- The thread waits in Read, `stop` ends `running` and cancels the call.
abbrev in_read : Shared
in_read = record {
  place = reading;
  stop = not_called;
  running = true;
  connected = true;
  published = true;
  cancelled = false;
}

abbrev stopping : Shared
unfolding store_stop cancel_call
stopping = cancel_call (store_stop in_read)

in_read-Reached : Reached in_read
unfolding started_reader next move
in_read-Reached =
    after (next (next started_reader)) in_read
      (after (next started_reader) (next (next started_reader))
        (after started_reader (next started_reader) at_start (moves started_reader))
        (moves (next started_reader)))
      (moves (next (next started_reader)))

stopping-Reached : Reached stopping
unfolding store_stop cancel_call stopping
stopping-Reached =
    after (store_stop in_read) stopping
      (after in_read (store_stop in_read) in_read-Reached (stop_stores in_read refl))
      (stop_cancels (store_stop in_read) refl)

stop_ends_example : (run_on 4 stopping).place ≡ finished
unfolding stopping
stop_ends_example = stop_ends stopping stopping-Reached refl
