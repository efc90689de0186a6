-- ===== src/Model/Tests.antt =====
-- A script that counts its calls, and the theorems at it.
use caneo.Common.{ℕ, ◌+◌, ◌≡◌, refl, true, false, [], ◌∷◌, or_else}
use caneo.Common.Text.{codes}
use caneo.Common.Int.{pos}
use caneo.Common.OrderedMap.{nat_key, text_key, pair_key}
use caneo.Common.Ieee.{Double, Ieee}
use caneo.Common.Plain.{plain}
use caneo.Frame.{CanFrame}
use caneo.Store.{update, get}
use caneo.Store.Laws.{latest}
use caneo.Model.{
  log_scalar, Script, ModelEngine, float, text, other, table, value_or_0, get_signal, base_of,
  on_frame,
}
use caneo.Model.Laws.{
  logged, called, under, outputs, asking, on_frames, get_signal-on_frames, on_frame-outputs,
}

-- Speed and count under their names, and an entry without a name.
abbrev counter : Script ℕ
counter n get_signal = (
  n + 1,
  table (
      (text (codes "speed"), float (get_signal (codes "can0") (codes "A") (codes "speed")))
      ∷ (other, float 7)
      ∷ (text (codes "n"), float n)
      ∷ []),
)

abbrev engine : ModelEngine ℕ
engine = record { lua = 3; store = []; script_name = codes "m"; logger = true; callback = false }

abbrev speed : Double → CanFrame
speed v = record {
  header = record { id = 26; interface = codes "can0"; dlc = 1 };
  payload = 7 ∷ [];
  decoded = record { name = codes "speed"; value = v; unit = []; min_val = 0; max_val = 0 } ∷ [];
  msg_name = codes "A";
  timestamp = pos 1000;
}

module _ (fp : Ieee) where
  logged_outputs :
      (on_frame fp counter engine (speed 5)).1
      ≡ log_scalar (codes "model/m/speed") 5 ∷ log_scalar (codes "model/m/n") 3 ∷ []
  unfolding on_frame get_signal
  logged_outputs = refl

abbrev asking_engine : ModelEngine (ℕ × Double)
asking_engine = record {
  lua = (3, 0);
  store = [];
  script_name = codes "m";
  logger = true;
  callback = false;
}

get_signal-on_frames_example :
    (on_frames plain
      (asking plain (codes "can0") (codes "A") (codes "speed") counter)
      asking_engine
      (speed 5 ∷ speed 6 ∷ [])).0.lua.1
    ≡ value_or_0 (
        or_else
          (latest (codes "can0") (codes "A") (codes "speed") (speed 5 ∷ speed 6 ∷ []))
          (get [] (codes "can0") (codes "A") (codes "speed")))
get_signal-on_frames_example =
    get_signal-on_frames plain (codes "can0") (codes "A") (codes "speed") counter asking_engine
      (speed 5 ∷ []) (speed 6) refl refl refl

on_frame-outputs_example :
    let outs = outputs plain (counter 3 (get_signal (update [] (speed 5)))).1 in
    (logged (on_frame plain counter engine (speed 5)).1 ≡ under (base_of plain (codes "m")) outs)
    × (called (on_frame plain counter engine (speed 5)).1 ≡ [])
on_frame-outputs_example = on_frame-outputs plain counter engine (speed 5)
