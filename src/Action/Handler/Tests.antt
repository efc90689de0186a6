-- ===== src/Action/Handler/Tests.antt =====
-- A handler of two actions, and the theorems of ActionHandler at it. An two_bytes function is the byte
-- that it writes before the value.
use caneo.Common.{ℕ, ◌≡◌, refl, true, false, none, some, List, [], ◌∷◌, arith}
use caneo.Common.Text.{codes}
use caneo.Common.Int.{pos}
use caneo.Common.OrderedMap.{nat_key, text_key, pair_key}
use caneo.Common.Ieee.{Double}
use caneo.Common.Plain.{plain}
use caneo.Action.{single, periodic, Action, infos}
use caneo.Action.Handler.{Handler, perform, find, new_handler, add_action, remove, completed}
use caneo.Action.Handler.Quiet.{IsQuiet}
use caneo.Action.Handler.Pausing.{After, perform-IsQuiet}
use caneo.Action.Handler.Late.{late_completion_resends, removed_then_completed}

abbrev two_bytes : ℕ → Double → List ℕ
two_bytes e v = e ∷ v ∷ []

abbrev every_ten : Action ℕ
every_ten = record {
  ptr = 1;
  kind = periodic (pos 10);
  interface = codes "can0";
  msg_id = 5;
  msg_name = codes "M";
  payload = 9 ∷ [];
  last_sent = pos 0;
  ever_sent = false;
  paused = false;
  armed = none;
}

abbrev once : Action ℕ
once = record every_ten { ptr = 2; kind = single }

abbrev two_actions : Handler ℕ
two_actions = record {
  actions = record every_ten { armed = some (pos 10) } ∷ record once { armed = some (pos 0) } ∷ [];
  snapshot = infos 0 (every_ten ∷ once ∷ []);
  sent = [];
  notified = 0;
}

abbrev fired_once : Handler ℕ
fired_once = add_action (add_action new_handler every_ten) once

single_is_removed :
    (perform plain two_bytes (pos 7) fired_once (completed 2)
      ≡ some (record (add_action new_handler every_ten) {
        sent = record { interface = codes "can0"; id = 5; payload = 9 ∷ [] } ∷ [];
        notified = 4;
      }))
unfolding perform new_handler
single_is_removed = refl

two_actions-IsQuiet : IsQuiet two_actions
two_actions-IsQuiet = record {
  still = ((λ e. cc), ((λ e. cc), tt));
  distinct = ((omega arith, tt), (tt, tt));
}

perform-IsQuiet_example :
    After two_actions (completed 1) (perform plain two_bytes (pos 7) two_actions (completed 1))
perform-IsQuiet_example =
    perform-IsQuiet plain two_bytes (pos 7) two_actions (completed 1) two_actions-IsQuiet
      ((λ _ e. cc), ((λ _ e. cc), tt))

abbrev half_paused : Handler ℕ
half_paused = record two_actions { actions = record every_ten { paused = true } ∷ once ∷ [] }

late_completion_resends_example :
    (h' : Handler ℕ) × (b : Action ℕ) × (perform plain two_bytes (pos 7) half_paused (completed 1)
      ≡ some h')
    × (h'.sent ≡ record { interface = codes "can0"; id = 5; payload = 9 ∷ [] } ∷ [])
    × (find 1 h'.actions ≡ some b)
    × (b.paused ≡ true)
    × (b.armed ≡ some (pos 10))
unfolding find
late_completion_resends_example =
    late_completion_resends plain two_bytes (pos 7) (pos 10) half_paused
      (record every_ten { paused = true }) refl refl refl

removed_then_completed_example :
    (h' : Handler ℕ) × (perform plain two_bytes (pos 7) two_actions (remove 0) ≡ some h')
    × (perform plain two_bytes (pos 7) h' (completed 1) ≡ none)
removed_then_completed_example =
    removed_then_completed plain two_bytes (pos 7) two_actions 0
      (record every_ten { armed = some (pos 10) }) two_actions-IsQuiet.distinct refl
