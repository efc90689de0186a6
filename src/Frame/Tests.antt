-- ===== src/Frame/Tests.antt =====
-- Runs of src/frame/DataFrameSet.cpp on three frames, and the theorems at them.
use caneo.Common.{ℕ, ◌≡◌, refl, some, List, [], ◌∷◌}
use caneo.Common.Text.{codes}
use caneo.Common.Int.{pos}
use caneo.Common.OrderedMap.{nat_key, text_key, pair_key, lookup}
use caneo.Frame.{CanFrame, DecodedSignal, new_set, update, delta}
use caneo.Frame.SetLaws.{replay, replay_shows}

abbrev speed : DecodedSignal
speed = record { name = codes "speed"; value = 7; unit = codes "km/h"; min_val = 0; max_val = 0 }

abbrev frame_at : ℕ → ℕ → List DecodedSignal → CanFrame
frame_at id t sigs = record {
  header = record { id = id; interface = codes "vcan0"; dlc = 1 };
  payload = 1 ∷ [];
  decoded = sigs;
  msg_name = codes "M";
  timestamp = pos t;
}

-- Newest first: an undecoded frame after a decoded one with the same ID.
abbrev history : List CanFrame
history = frame_at 5 30 [] ∷ frame_at 9 20 [] ∷ frame_at 5 10 (speed ∷ []) ∷ []

keeps_signals : lookup 5 (replay (codes "vcan0") history).frames ≡ some (frame_at 5 30 (speed ∷ []))
unfolding update new_set
keeps_signals = refl

replay_shows_example : delta (replay (codes "vcan0") history) 5 ≡ some (pos 20)
replay_shows_example = (replay_shows (codes "vcan0") 5 history).2
