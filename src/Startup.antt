-- ===== src/Startup.antt =====
-- src/setup/InterfaceSetup.cpp and src/main.cpp: bringing the interfaces up, and what the program does before it
-- enters a mode. The kernel and the commands of `ip` are a library.
pub mod Commands
pub mod Laws
pub mod Entering
mod Tests
use caneo.Config.{InterfaceConfig, Config, Error}
use caneo.Config.AppConfig.{AppConfig}
use caneo.Common.{
  ℕ, ◌⊎◌, inl, inr, Bool, not, ◌&&◌, Option, none, some, List, [], ◌∷◌, map, ltb, if◌then◌else◌,
  is_empty,
}
use caneo.Common.Text.{Text}

-- The commands that are given to `sudo`.
pub data Command : Type 0 where
  modprobe_vcan : Command
  link_add link_up : Text → Command
  set_bitrate : Text → ℕ → Command

-- `if_nametoindex`, the file operstate, and `std::system`, whose flag tells that the command gave 0.
pub record System (S : Type 0) : Type 0 where
  pub interface_exists : S → Text → Bool
  pub interface_is_up : S → Text → Bool
  pub run : S → Command → S × Bool

module _ {S : Type 0} (sys : System S) where
  -- `run`: the state after the command, and the command that failed, which ends the set-up.
  abbrev pub Result : Type 0
  Result = S × Option Command

  unfoldable pub run : S → Command → Result
  run s c = let r = sys.run s c in (r.0, (if r.1 then none else some c))

  -- The second step where the first one did not throw.
  unfoldable pub and_then : Result → (S → Result) → Result
  and_then (s, none) k = k s
  and_then (s, some c) k = (s, some c)

  unfoldable pub run_when : Bool → Command → S → Result
  unfolding run
  run_when b c s = if b then run s c else (s, none)

  -- One turn of the loop with `virtual: true`.
  unfoldable pub setup_virtual : S → Text → Result
  unfolding and_then run_when
  setup_virtual s name =
      and_then (run_when (not (sys.interface_exists s name)) (link_add name) s)
        λ s'. run_when (not (sys.interface_is_up s' name)) (link_up name) s'

  -- One turn of the other loop.
  unfoldable pub setup_real : S → InterfaceConfig → Result
  unfolding and_then run_when run
  setup_real s cfg =
      if not (sys.interface_exists s cfg.name)
      then (s, none)
      else if sys.interface_is_up s cfg.name
      then (s, none)
      else and_then (run_when (ltb 0 cfg.baudrate) (set_bitrate cfg.name cfg.baudrate) s)
          λ s'. run s' (link_up cfg.name)

  unfoldable pub setup_all : (S → InterfaceConfig → Result) → List InterfaceConfig → S → Result
  unfolding and_then
  setup_all f [] s = (s, none)
  setup_all f (cfg ∷ cfgs) s = and_then (f s cfg) (λ s'. setup_all f cfgs s')

  unfoldable pub setup_interfaces : Config → S → Result
  unfolding setup_all and_then run setup_virtual setup_real
  setup_interfaces cfg s =
      if cfg.virtual_can
      then and_then (run s modprobe_vcan)
          (setup_all (λ s' c. setup_virtual s' c.name) cfg.interfaces)
      else setup_all setup_real cfg.interfaces s

pub data Mode : Type 0 where
  playback_mode tui_mode gui_mode live_mode : Mode

unfoldable pub choose_mode : AppConfig → Mode
choose_mode app =
    if not (is_empty app.playback_path)
    then playback_mode
    else if app.tui_mode
    then tui_mode
    else if app.gui_mode
    then gui_mode
    else live_mode

-- The interfaces of the recording where none are configured; `scanned` is what scan_interfaces gives.
unfoldable pub auto_detect : AppConfig → List Text → AppConfig
auto_detect app scanned =
    if not (is_empty app.playback_path) && is_empty app.config.interfaces
    then record app {
      config = record (app.config) {
        interfaces =
            map (λ name. record { name = name; dbc = []; actions_file = []; baudrate = 0 }) scanned;
      };
    }
    else app

-- How the program ends: with 1 before a mode, or in a mode.
pub data Ending : Type 0 where
  bad_config no_interfaces : Ending
  setup_failed : Command → Ending
  entered : Mode → AppConfig → Ending

module _ {S : Type 0} (sys : System S) where
  unfoldable pub needs_setup : AppConfig → Bool
  needs_setup app = not (is_empty app.config.interfaces) && is_empty app.grpc_client

  unfoldable pub enter : S × Option Command → AppConfig → S × Ending
  unfolding choose_mode
  enter (s, none) app = (s, entered (choose_mode app) app)
  enter (s, some c) app = (s, setup_failed c)

  -- main, up to the call of the mode; an exception in there makes it return 1 as well.
  unfoldable pub main : AppConfig ⊎ Error → List Text → S → S × Ending
  unfolding auto_detect needs_setup enter setup_interfaces
  main (inr e) scanned s = (s, bad_config)
  main (inl parsed) scanned s =
      let app = auto_detect parsed scanned in
      if is_empty app.config.interfaces && is_empty app.playback_path
      then (s, no_interfaces)
      else enter (if needs_setup app then setup_interfaces sys app.config s else (s, none)) app
