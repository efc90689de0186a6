-- ===== src/Preset/Tests.antt =====
-- A file of two entries for one message, and the theorem at it.
use caneo.Common.{ℕ, ◌≡◌, refl, Option, none, some, List, [], ◌∷◌, set}
use caneo.Common.Text.{Text, codes}
use caneo.Common.Int.{pos}
use caneo.Common.OrderedMap.{nat_key, text_key, pair_key}
use caneo.Common.Plain.{plain}
use caneo.Common.Ieee.{Double}
use caneo.Dbc.{ExtendedValueType, Multiplexer, Signal}
use caneo.Send.Encoding.{value_at}
use caneo.Send.{SendSignal, SendMessage, SendModel, set_value, encode, raw_of}
use caneo.Action.{Action}
use caneo.Preset.{Entry, EncodeFn, bytes_of, apply_signals, find_index}
use caneo.Preset.Load.{load_entries, periodic_of, earlier_values_stay}

abbrev read_byte : List ℕ → ℕ
read_byte [] = 0
read_byte (b ∷ bytes) = b

abbrev speed : Signal
speed = record {
  name = codes "speed";
  unit = codes "km/h";
  minimum = 0;
  maximum = 0;
  factor = 1;
  offset = 0;
  start_bit = 0;
  bit_size = 8;
  value_type = ExtendedValueType.integer;
  multiplexer = Multiplexer.no_mux;
  switch_value = 0;
  decode = read_byte;
  encode = λ raw bytes. set bytes 0 raw;
  raw_to_phys = λ raw. raw;
  phys_to_raw = λ v. v;
}

abbrev gear : Signal
gear = record speed { name = codes "gear"; start_bit = 8; encode = λ raw bytes. set bytes 1 raw }

abbrev given : Signal → Double → SendSignal
given s v = record {
  name = s.name;
  unit = s.unit;
  min_val = s.minimum;
  max_val = s.maximum;
  value = v;
  sig = s;
}

abbrev sent : Double → SendMessage
sent v = record {
  id = 288;
  name = codes "DRIVE";
  dlc = 2;
  signals = given speed v ∷ given gear 0 ∷ [];
}

abbrev model : SendModel
model = sent 90 ∷ []

abbrev first_values : List (Text × Option Double)
first_values = (codes "speed", some 70) ∷ (codes "x", none) ∷ []

-- The second entry names the other signal.
abbrev second_values : List (Text × Option Double)
second_values = (codes "gear", some 3) ∷ []

abbrev last_entries : List Entry
last_entries = periodic_of (codes "OTHER") [] ∷ []

abbrev model_behind : SendModel
unfolding set_value
model_behind = set_value (set_value model 0 0 70) 0 1 3

earlier_values_stay_example :
    let rest = load_entries plain 1 (pos 5) (λ n. n) (codes "can0") 2 model_behind last_entries in
    (a b : Action EncodeFn) × (load_entries plain 1
        (pos 5)
        (λ n. n)
        (codes "can0")
        0
        model
        (periodic_of (codes "DRIVE") first_values
          ∷ periodic_of (codes "DRIVE") second_values
          ∷ last_entries)
      ≡ (a ∷ b ∷ rest.0, rest.1))
    × (a.payload ≡ bytes_of (encode plain (set_value model 0 0 70) 0))
    × (b.payload ≡ bytes_of (encode plain model_behind 0))
    × (value_at model_behind 0 0 ≡ value_at (set_value model 0 0 70) 0 0)
unfolding find_index apply_signals set_value model_behind
earlier_values_stay_example =
    earlier_values_stay plain 1 (pos 5) (λ n. n) (codes "can0") 0 model (set_value model 0 0 70)
      model_behind (codes "DRIVE") first_values second_values 0 (sent 90) (sent 70) 0
      (given speed 70) last_entries refl refl refl refl refl refl refl

sent_bytes : encode plain model_behind 0 ≡ some (70 ∷ 3 ∷ [])
unfolding encode set_value raw_of model_behind
sent_bytes = refl
