-- ===== src/Startup/Entering.antt =====
-- What holds when the program enters a mode: src/main.cpp.
use caneo.Common.{
  if_all, ◌≡◌, refl, inl, inr, Bool, true, false, not, ◌&&◌, ◌||◌, Option, none, some, List, [],
  ◌∷◌, arith, if◌then◌else◌, Bool-cases, All, is_empty,
}
use caneo.Config.{InterfaceConfig}
use caneo.Config.AppConfig.{AppConfig}
use caneo.Startup.{
  Mode, playback_mode, tui_mode, gui_mode, live_mode, Command, System, Ending, entered, choose_mode,
  auto_detect, needs_setup, enter, main, setup_interfaces,
}
use caneo.Startup.Commands.{IsLinux}
use caneo.Startup.Laws.{is_ready, setup_interfaces_lem}
use caneo.Common.Text.{Text}
use caneo.Common.OrderedMap.{nat_key, text_key, pair_key}

-- A program that listens to a server leaves the interfaces alone, else each of them is ready.
abbrev pub is_prepared :
    {S : Type 0} (sys : System S) → IsLinux sys → AppConfig → S → S → InterfaceConfig → Bool
is_prepared sys linux app s s' c =
    not (is_empty app.grpc_client) || is_ready sys linux app.config s s' c

-- The mode that the options ask for: a recording before all, then the flag of the terminal, then that of the window.
abbrev pub is_asked_for : Mode → AppConfig → Bool
is_asked_for playback_mode app = not (is_empty app.playback_path)
is_asked_for tui_mode app = is_empty app.playback_path && app.tui_mode
is_asked_for gui_mode app = is_empty app.playback_path && (not app.tui_mode && app.gui_mode)
is_asked_for live_mode app = is_empty app.playback_path && not (app.tui_mode || app.gui_mode)

choose_mode_lem : (app : AppConfig) → is_asked_for (choose_mode app) app ≡ true
unfolding choose_mode
choose_mode_lem app =
    let P : Mode → Type 0 = λ m. is_asked_for m app ≡ true in
    if_all P (not (is_empty app.playback_path)) (λ e. e)
      λ e.
        if_all P app.tui_mode (λ t. ground (arith, e, t))
          λ t. if_all P app.gui_mode (λ g. ground (arith, e, t, g)) (λ g. ground (arith, e, t, g))

module _ {S : Type 0} (sys : System S) (linux : IsLinux sys) (s : S) where
  -- What is promised of an ending.
  abbrev pub Kept : S × Ending → Type 0
  Kept (s', entered m app) =
      (is_asked_for m app ≡ true)
      × (((is_empty app.config.interfaces && is_empty app.playback_path) ≡ false)
          × All (λ c. is_prepared sys linux app s s' c ≡ true) app.config.interfaces)
  Kept (s', e) = Unit

  All-always :
      (app : AppConfig) (s' : S) (cs : List InterfaceConfig)
      → is_empty app.grpc_client ≡ false
      → All (λ c. is_prepared sys linux app s s' c ≡ true) cs
  All-always app s' [] h = tt
  All-always app s' (c ∷ cs) h = (ground (arith, h), All-always app s' cs h)

  All-ready :
      (app : AppConfig) (s' : S) (cs : List InterfaceConfig)
      → All (λ c. is_ready sys linux app.config s s' c ≡ true) cs
      → All (λ c. is_prepared sys linux app s s' c ≡ true) cs
  All-ready app s' [] h = tt
  All-ready app s' (c ∷ cs) (x, xs) = (ground (arith, x), All-ready app s' cs xs)

  All-empty :
      (app : AppConfig) (s' : S) (cs : List InterfaceConfig)
      → is_empty cs ≡ true
      → All (λ c. is_prepared sys linux app s s' c ≡ true) cs
  All-empty app s' [] h = tt
  All-empty app s' (c ∷ cs) h = cc

  enter-Kept :
      (app : AppConfig) (r : S × Option Command)
      → (is_empty app.config.interfaces && is_empty app.playback_path) ≡ false
      → (r.1 ≡ none → All (λ c. is_prepared sys linux app s r.0 c ≡ true) app.config.interfaces)
      → Kept (enter sys r app)
  unfolding enter
  enter-Kept app (s', none) n h = (choose_mode_lem app, (n, h refl))
  enter-Kept app (s', some c) n h = tt

  prepared :
      (app : AppConfig)
      → let r = if needs_setup sys app then setup_interfaces sys app.config s else (s, none) in
        r.1 ≡ none → All (λ c. is_prepared sys linux app s r.0 c ≡ true) app.config.interfaces
  unfolding needs_setup
  prepared app =
      let cs = app.config.interfaces in
      if_all
        (λ (r : S × Option Command).
          r.1 ≡ none → All (λ c. is_prepared sys linux app s r.0 c ≡ true) cs)
        (not (is_empty cs) && is_empty app.grpc_client)
        (λ _ h.
          All-ready app (setup_interfaces sys app.config s).0 cs
            (setup_interfaces_lem sys linux app.config s h))
        (λ e h. elim (Bool-cases (is_empty app.grpc_client)) [
          | inl c ↦ All-empty app s cs (ground (arith, e, c))
          | inr c ↦ All-always app s cs c
        ])

  main-Kept : (parsed : AppConfig) (scanned : List Text) → Kept (main sys (inl parsed) scanned s)
  unfolding main
  main-Kept parsed scanned =
      let app = auto_detect parsed scanned in
      if_all Kept (is_empty app.config.interfaces && is_empty app.playback_path) (λ _. tt)
        (λ n.
          enter-Kept app
            (if needs_setup sys app then setup_interfaces sys app.config s else (s, none)) n
            (prepared app))

-- Whatever the options and the recording say: a mode is entered only with an interface or a recording; it is the
-- playback where a recording is given, else that of the flags, the terminal before the window; and unless the
-- program listens to a server, each interface that was asked for, or was there, is there and set up.
pub main_lem :
    {S : Type 0} (sys : System S) (linux : IsLinux sys) (parsed : AppConfig) (scanned : List Text)
    (s : S)
    → Kept sys linux s (main sys (inl parsed) scanned s)
main_lem sys linux parsed scanned s = main-Kept sys linux s parsed scanned
