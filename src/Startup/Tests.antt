-- ===== src/Startup/Tests.antt =====
-- A system that knows which interfaces exist and are up, and the theorem on the start at it.
use caneo.Config.AppConfig.{AppConfig}
use caneo.Startup.{
  Command, modprobe_vcan, link_add, link_up, set_bitrate, System, main, entered, live_mode,
}
use caneo.Startup.Commands.{IsLinux}
use caneo.Startup.Entering.{Kept, main_lem}
use caneo.Common.{◌≡◌, refl, inl, Bool, true, false, ◌||◌, none, List, [], ◌∷◌, arith, any}
use caneo.Common.Text.{Text, codes, text_eq, text_eq_iff}
use caneo.Common.OrderedMap.{nat_key, text_key, pair_key}

-- The names of the interfaces that exist, and of those that are up.
abbrev Links : Type 0
Links = List Text × List Text

abbrev has : Text → List Text → Bool
has n ns = any (text_eq n) ns

abbrev execute : Links → Command → Links × Bool
execute s modprobe_vcan = (s, true)
execute s (link_add n) = ((n ∷ s.0, s.1), true)
execute s (link_up n) = ((s.0, n ∷ s.1), true)
execute s (set_bitrate n b) = (s, true)

abbrev links : System Links
links = record {
  interface_exists = λ s n. has n s.0;
  interface_is_up = λ s n. has n s.1;
  run = execute;
}

text_eq_self : (n : Text) → text_eq n n ≡ true
text_eq_self n = (text_eq_iff n n).1 refl

or_left : (a b : Bool) → a ≡ true → (a || b) ≡ true
or_left a b h = ground (arith, h)

or_right : (a b : Bool) → b ≡ true → (a || b) ≡ true
or_right a b h = ground (arith, h)

exists_kept :
    (s : Links) (c : Command) (n : Text) → has n s.0 ≡ true → has n (execute s c).0.0 ≡ true
exists_kept s modprobe_vcan n h = h
exists_kept s (link_add m) n h = or_right (text_eq n m) (has n s.0) h
exists_kept s (link_up m) n h = h
exists_kept s (set_bitrate m b) n h = h

up_kept : (s : Links) (c : Command) (n : Text) → has n s.1 ≡ true → has n (execute s c).0.1 ≡ true
up_kept s modprobe_vcan n h = h
up_kept s (link_add m) n h = h
up_kept s (link_up m) n h = or_right (text_eq n m) (has n s.1) h
up_kept s (set_bitrate m b) n h = h

links-IsLinux : IsLinux links
links-IsLinux = record {
  is_set_up = λ s n. has n s.1;
  operates = λ s n h. h;
  added = λ s n h. or_left (text_eq n n) (has n s.0) (text_eq_self n);
  brought_up = λ s n h. or_left (text_eq n n) (has n s.1) (text_eq_self n);
  exists_kept = exists_kept;
  up_kept = up_kept;
}

abbrev app : AppConfig
app = record {
  tui_mode = false;
  gui_mode = false;
  log_mode = false;
  debug_mode = false;
  grpc_server = false;
  grpc_client = [];
  grpc_port = 50051;
  model_path = [];
  playback_path = [];
  config = record {
    virtual_can = true;
    log_file_path = none;
    graphs_file = [];
    interfaces = record { name = codes "vcan0"; dbc = []; actions_file = []; baudrate = 0 } ∷ [];
  };
}

goes_live :
    main links (inl app) [] ([], [])
    ≡ ((codes "vcan0" ∷ [], codes "vcan0" ∷ []), entered live_mode app)
unfolding main
goes_live = refl

main_lem_example : Kept links links-IsLinux ([], []) (main links (inl app) [] ([], []))
main_lem_example = main_lem links links-IsLinux app [] ([], [])
