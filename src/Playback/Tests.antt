-- ===== src/Playback/Tests.antt =====
-- A controller of two interfaces with a filter, and the theorems at it.
use caneo.Common.OrderedMap.{nat_key, text_key, pair_key}
use caneo.Playback.{Playback, new_playback, is_running, toggle, toggle_message}
use caneo.Common.{◌≡◌, refl, Bool, true, false, none, List, [], ◌∷◌}
use caneo.Common.Text.{Text, codes}
use caneo.Common.Int.{negsuc}

abbrev filter_ab : List (Text × Bool)
filter_ab = (codes "A", true) ∷ (codes "B", false) ∷ []

abbrev controller : Playback
controller = record {
  states = (codes "can0", false) ∷ (codes "can1", true) ∷ [];
  stopped = false;
  messages = (codes "can0", filter_ab) ∷ [];
}

starts_paused :
    is_running (toggle (new_playback (codes "can0" ∷ [])) (codes "can0")) (codes "can0") ≡ true
unfolding is_running toggle new_playback
starts_paused = refl

negative_index : toggle_message controller (codes "can0") (negsuc 0) ≡ none
unfolding toggle_message
negative_index = refl
