-- ===== src/Config/AppConfig.antt =====
-- src/config/AppConfig.cpp: the command line.
use caneo.Config.{InterfaceConfig, Config, Node, Files, Error, load_config, try_load_default_config}
use caneo.Common.{
  ℕ, ◌%◌, ◌^◌, ◌⊎◌, inl, inr, Bool, false, Option, none, some, List, [], ◌∷◌, map, ◌==◌,
  if◌then◌else◌, is_empty,
}
use caneo.Common.Text.{Text}
use caneo.Common.OrderedMap.{nat_key, text_key, pair_key}

-- The values of the flags. `config_file` is nothing where the flag is empty, else what loading it gives; `default_file`
-- is what is known of caneo.yaml.
pub record Flags : Type 0 where
  pub tui : Bool
  pub gui : Bool
  pub log : Bool
  pub debug : Bool
  pub grpc_server : Bool
  pub grpc_client : Text
  pub grpc_port : ℕ
  pub model : Text
  pub playback : Text
  pub config_file : Option (Option Node)
  pub default_file : Option (Option Node)

pub record AppConfig : Type 0 where
  pub tui_mode : Bool
  pub gui_mode : Bool
  pub log_mode : Bool
  pub debug_mode : Bool
  pub grpc_server : Bool
  pub grpc_client : Text
  pub grpc_port : ℕ
  pub model_path : Text
  pub playback_path : Text
  pub config : Config

unfoldable pub empty_config : Config
empty_config = record {
  virtual_can = false;
  log_file_path = none;
  graphs_file = [];
  interfaces = [];
}

-- The text before the first `:`, and the one behind it, if there is one.
unfoldable pub split_colon : Text → Text × Option Text
split_colon [] = ([], none)
split_colon (c ∷ cs) = let r = split_colon cs in if c == b':' then ([], some cs) else (c ∷ r.0, r.1)

abbrev pub text_or_empty : Option Text → Text
text_or_empty none = []
text_or_empty (some s) = s

-- One interface argument, `iface[:dbc]`.
unfoldable pub parse_spec : Text → InterfaceConfig
unfolding split_colon
parse_spec arg =
    let r = split_colon arg in
    record { name = r.0; dbc = text_or_empty r.1; actions_file = []; baudrate = 0 }

default_or_empty : Option Config → Config
unfolding empty_config
default_or_empty none = empty_config
default_or_empty (some c) = c

-- Where the configuration comes from: the file of the flag, else the arguments, else caneo.yaml.
unfoldable pub choose_config : Files → Flags → List Text → Config ⊎ Error
unfolding load_config try_load_default_config default_or_empty empty_config parse_spec
choose_config fs flags iface_args = elim flags.config_file [
  | some file ↦ load_config fs file
  | none ↦
      if is_empty iface_args
      then elim (try_load_default_config fs flags.default_file) [
        | inl c ↦ inl (default_or_empty c)
        | inr e ↦ inr e
      ]
      else inl (record empty_config { interfaces = map parse_spec iface_args })
]

-- AppConfig::parse, with the arguments that gflags leaves; the port loses what 16 bits do not hold.
unfoldable pub parse : Files → Flags → List Text → AppConfig ⊎ Error
unfolding choose_config
parse fs flags iface_args = elim (choose_config fs flags iface_args) [
  | inr e ↦ inr e
  | inl c ↦ inl (record {
    tui_mode = flags.tui;
    gui_mode = flags.gui;
    log_mode = flags.log;
    debug_mode = flags.debug;
    grpc_server = flags.grpc_server;
    grpc_client = flags.grpc_client;
    grpc_port = flags.grpc_port % 2 ^ 16;
    model_path = flags.model;
    playback_path = flags.playback;
    config = c;
  })
]

-- make_log_path: the directory that is created, and the path; `stamped` is the name that strftime gives.
unfoldable pub make_log_path : Files → AppConfig → Text → Text × Text
make_log_path fs app stamped =
    let dir : Text = elim app.config.log_file_path [ none ↦ fs.current_path | some d ↦ d ] in
    (dir, fs.join dir stamped)
