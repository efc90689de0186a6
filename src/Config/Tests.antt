-- ===== src/Config/Tests.antt =====
-- A configuration file of two interfaces, an argument, and the theorems on them.
use caneo.Config.{Body, Config, Node, Files, scalar, fields, missing_interfaces, parse_config}
use caneo.Preset.{absent, value}
use caneo.Common.{◌≡◌, refl, inl, inr, false, Option, none, some, List, [], ◌∷◌, ◌++◌}
use caneo.Common.Text.{Text, codes}
use caneo.Common.OrderedMap.{nat_key, text_key, pair_key}

abbrev files : Files
files = record {
  current_path = codes "/work";
  home = some (codes "/home/me");
  join = λ a b. a ++ (b'/' ∷ b);
}

abbrev entries : List (Option Text × Body)
entries =
    (some (codes "can0"), fields (value (codes "a.dbc")) (value 500000) absent)
    ∷ (some (codes "can1"), scalar (some (codes "b.dbc")))
    ∷ []

abbrev root : Node
root = record {
  virtual_key = absent;
  log_file_path_key = value (codes "~/logs");
  graphs_preset_key = absent;
  interfaces_key = some entries;
}

abbrev read : Config
read = record {
  virtual_can = false;
  log_file_path = some (codes "/home/me/logs");
  graphs_file = [];
  interfaces =
      record { name = codes "can0"; dbc = codes "a.dbc"; actions_file = []; baudrate = 500000 }
      ∷ record { name = codes "can1"; dbc = codes "b.dbc"; actions_file = []; baudrate = 0 }
      ∷ [];
}

is_read : parse_config files root ≡ inl read
unfolding parse_config
is_read = refl

is_refused : parse_config files (record root { interfaces_key = none }) ≡ inr missing_interfaces
unfolding parse_config
is_refused = refl
