-- ===== src/Config.antt =====
-- src/config/Config.cpp and src/config/AppConfig.cpp: the configuration file and the command line. The nodes of
-- yaml-cpp are what the reader asks them for, the flags of gflags are their values.
pub mod AppConfig
pub mod Laws
mod Tests
use caneo.Preset.{Field, absent, bad, value, given_or, ◌>>◌}
use caneo.Common.{
  ℕ, ◌/◌, ◌⊎◌, inl, inr, Bool, false, ◌&&◌, Option, none, some, List, [], ◌∷◌, ◌==◌, if◌then◌else◌,
}
use caneo.Common.Text.{Text, codes, text_eq}

pub record InterfaceConfig : Type 0 where
  pub name : Text
  pub dbc : Text
  pub actions_file : Text
  pub baudrate : ℕ

pub record Config : Type 0 where
  pub virtual_can : Bool
  pub log_file_path : Option Text
  pub graphs_file : Text
  pub interfaces : List InterfaceConfig

-- What stands behind an interface's name; `other` is a null node or a sequence.
pub data Body : Type 0 where
  missing other : Body
  scalar : Option Text → Body
  fields : Field Text → Field ℕ → Field Text → Body

-- The root node of a file; an interface's name may fail to convert.
pub record Node : Type 0 where
  pub virtual_key : Field Bool
  pub log_file_path_key : Field Text
  pub graphs_preset_key : Field Text
  pub interfaces_key : Option (List (Option Text × Body))

-- `std::filesystem::current_path`, the variable HOME, and `operator/` of paths.
pub record Files : Type 0 where
  pub current_path : Text
  pub home : Option Text
  pub join : Text → Text → Text

pub data Error : Type 0 where
  load_failed missing_interfaces bad_conversion : Error

-- `raw.starts_with("~/")`, with what comes behind.
unfoldable pub behind_home : Text → Option Text
behind_home (c ∷ d ∷ rest) = if c == b'~' && d == b'/' then some rest else none
behind_home _ = none

unfoldable pub expand_path : Files → Text → Text
unfolding behind_home
expand_path fs raw = if text_eq raw (codes ".") then fs.current_path else elim (behind_home raw) [
  | none ↦ raw
  | some rest ↦ elim fs.home [ none ↦ raw | some home ↦ fs.join home rest ]
]

unfoldable pub no_interface : Text → InterfaceConfig
no_interface name = record { name = name; dbc = []; actions_file = []; baudrate = 0 }

-- One turn of the loop over the interfaces.
unfoldable pub read_body : Text → Body → Option InterfaceConfig
unfolding no_interface
read_body name missing = some (no_interface name)
read_body name other = some (no_interface name)
read_body name (scalar none) = none
read_body name (scalar (some dbc)) = some (record (no_interface name) { dbc = dbc })
read_body name (fields dbc baudrate actions) = given_or [] dbc >> λ d. given_or 0 baudrate >> λ b.
    given_or [] actions >> λ a.
    some (record { name = name; dbc = d; actions_file = a; baudrate = b })

unfoldable pub read_interfaces : List (Option Text × Body) → Option (List InterfaceConfig)
unfolding read_body
read_interfaces [] = some []
read_interfaces ((none, body) ∷ rest) = none
read_interfaces ((some name, body) ∷ rest) =
    let others = read_interfaces rest in
    read_body name body >> λ cfg. others >> λ cfgs. some (cfg ∷ cfgs)

-- `root[key].as<std::string>()` where the key is there.
abbrev pub opt_field : {A : Type 0} → Field A → Option (Option A)
opt_field absent = some none
opt_field bad = none
opt_field (value a) = some (some a)

abbrev pub expand_opt : Files → Option Text → Option Text
unfolding expand_path
expand_opt fs none = none
expand_opt fs (some raw) = some (expand_path fs raw)

-- The result of the reader, its exceptions in `inr`.
unfoldable pub finish : Bool → Option Text → Text → Option (List InterfaceConfig) → Config ⊎ Error
finish v l g none = inr bad_conversion
finish v l g (some cfgs) =
    inl (record { virtual_can = v; log_file_path = l; graphs_file = g; interfaces = cfgs })

unfoldable pub with_interfaces :
    Bool → Option Text → Text → Option (List (Option Text × Body)) → Config ⊎ Error
unfolding finish read_interfaces
with_interfaces v l g none = inr missing_interfaces
with_interfaces v l g (some entries) = finish v l g (read_interfaces entries)

-- The three keys that stand before the interfaces.
unfoldable pub settings : Files → Node → Option (Bool × (Option Text × Text))
unfolding expand_opt
settings fs root = given_or false root.virtual_key >> λ v. opt_field root.log_file_path_key >> λ l.
    given_or [] root.graphs_preset_key >> λ g. some (v, (expand_opt fs l, g))

unfoldable pub parse_config : Files → Node → Config ⊎ Error
unfolding settings with_interfaces
parse_config fs root = elim (settings fs root) [
  | none ↦ inr bad_conversion
  | some (v, (l, g)) ↦ with_interfaces v l g root.interfaces_key
]

-- load_config; nothing stands for a file that yaml-cpp cannot load.
unfoldable pub load_config : Files → Option Node → Config ⊎ Error
unfolding parse_config
load_config fs none = inr load_failed
load_config fs (some root) = parse_config fs root

-- try_load_default_config: nothing where caneo.yaml does not exist.
unfoldable pub try_load_default_config : Files → Option (Option Node) → Option Config ⊎ Error
unfolding load_config
try_load_default_config fs none = inl none
try_load_default_config fs (some file) = elim (load_config fs file) [
  | inl c ↦ inl (some c)
  | inr e ↦ inr e
]
