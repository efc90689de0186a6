-- ===== src/Startup/Commands.antt =====
-- What the commands of the set-up of the interfaces do: src/setup/InterfaceSetup.cpp, lines 28-52.
use caneo.Common.{
  if_all, ◌≡◌, refl, sym, ap, ◌∙◌, Bool, true, false, not, Option, none, some, List, [], ◌∷◌, arith,
  ltb, All,
}
use caneo.Config.{InterfaceConfig}
use caneo.Startup.{
  Command, link_add, link_up, set_bitrate, System, run, and_then, run_when, setup_virtual,
  setup_real, setup_all,
}
use mathlib.Core.Path.{subst}
use caneo.Common.Text.{Text}
use caneo.Common.OrderedMap.{nat_key, text_key, pair_key}

-- What the commands do, as the kernel documents it. `is_set_up` is the administrative state of an interface, its flag
-- IFF_UP: `ip link set up` that gives 0 has set it, and the file operstate says `down` where it is not set. No command
-- takes an interface away or down.
pub record IsLinux {S : Type 0} (sys : System S) : Type 0 where
  pub added :
      (s : S) (n : Text)
      → (sys.run s (link_add n)).1 ≡ true
      → sys.interface_exists (sys.run s (link_add n)).0 n ≡ true
  pub is_set_up : S → Text → Bool
  pub operates : (s : S) (n : Text) → sys.interface_is_up s n ≡ true → is_set_up s n ≡ true
  pub brought_up :
      (s : S) (n : Text)
      → (sys.run s (link_up n)).1 ≡ true
      → is_set_up (sys.run s (link_up n)).0 n ≡ true
  pub exists_kept :
      (s : S) (c : Command) (n : Text)
      → sys.interface_exists s n ≡ true
      → sys.interface_exists (sys.run s c).0 n ≡ true
  pub up_kept :
      (s : S) (c : Command) (n : Text) → is_set_up s n ≡ true → is_set_up (sys.run s c).0 n ≡ true

module _ {S : Type 0} (sys : System S) (linux : IsLinux sys) where
  -- A property of the state that no command destroys.
  abbrev pub IsKept : (S → Type 0) → Type 0
  IsKept P = (s : S) (c : Command) → P s → P (sys.run s c).0

  kept-run : (P : S → Type 0) → IsKept P → (s : S) (c : Command) → P s → P (run sys s c).0
  unfolding run
  kept-run P k s c h = k s c h

  kept-run_when :
      (P : S → Type 0)
      → IsKept P
      → (b : Bool) (c : Command) (s : S) → P s
      → P (run_when sys b c s).0
  unfolding run_when
  kept-run_when P k true c s h = kept-run P k s c h
  kept-run_when P k false c s h = h

  kept-and_then :
      (P : S → Type 0) (r : S × Option Command) (f : S → S × Option Command)
      → P r.0
      → ((s : S) → P s → P (f s).0)
      → P (and_then sys r f).0
  unfolding and_then
  kept-and_then P (s, none) f h k = k s h
  kept-and_then P (s, some c) f h k = h

  -- What holds after both of two steps, the second of which starts where the first one did not fail.
  pub and_then-none :
      (r : S × Option Command) (f : S → S × Option Command)
      → (and_then sys r f).1 ≡ none
      → (r.1 ≡ none) × ((f r.0).1 ≡ none) × (and_then sys r f ≡ f r.0)
  unfolding and_then
  and_then-none (s, none) f h = (refl, h, refl)
  and_then-none (s, some c) f h = absurd (cc h)

  setup_all_kept :
      (f : S → InterfaceConfig → S × Option Command) (Q : S → Type 0)
      → ((s : S) (c : InterfaceConfig) → Q s → Q (f s c).0)
      → (cfgs : List InterfaceConfig) (s : S) → Q s
      → Q (setup_all sys f cfgs s).0
  unfolding setup_all
  setup_all_kept f Q k [] s q = q
  setup_all_kept f Q k (c ∷ cs) s q =
      kept-and_then Q (f s c) (λ s'. setup_all sys f cs s') (k s c q)
        (λ s' q'. setup_all_kept f Q k cs s' q')

  -- A loop whose every turn establishes a property of its interface.
  pub setup_all_lem :
      (f : S → InterfaceConfig → S × Option Command) (I : S → Type 0)
      (P : InterfaceConfig → S → Type 0)
      → ((s : S) (c : InterfaceConfig) → I s → I (f s c).0)
      → ((s : S) (c d : InterfaceConfig) → P d s → P d (f s c).0)
      → ((s : S) (c : InterfaceConfig) → I s → (f s c).1 ≡ none → P c (f s c).0)
      → (cfgs : List InterfaceConfig) (s u : S) → I s
      → (setup_all sys f cfgs s).1 ≡ none
      → (setup_all sys f cfgs s).0 ≡ u
      → All (λ c. P c u) cfgs
  unfolding setup_all
  setup_all_lem f I P ki kp est [] s u i h q = tt
  setup_all_lem f I P ki kp est (c ∷ cs) s u i h q =
      let (a, b, e) = and_then-none (f s c) (λ s'. setup_all sys f cs s') h in
      let q' = sym (ap (λ r. r.0) e) ∙ q in
      (
        subst (P c) q' (setup_all_kept f (P c) (λ s' d. kp s' d c) cs (f s c).0 (est s c i a)),
        setup_all_lem f I P ki kp est cs (f s c).0 u (ki s c i) b q',
      )

  pub kept-setup_virtual :
      (Q : S → Type 0) → IsKept Q → (s : S) (n : Text) → Q s → Q (setup_virtual sys s n).0
  unfolding setup_virtual
  kept-setup_virtual Q k s n q =
      kept-and_then Q (run_when sys (not (sys.interface_exists s n)) (link_add n) s)
        (λ s'. run_when sys (not (sys.interface_is_up s' n)) (link_up n) s')
        (kept-run_when Q k (not (sys.interface_exists s n)) (link_add n) s q)
        (λ s' q'. kept-run_when Q k (not (sys.interface_is_up s' n)) (link_up n) s' q')

  pub kept-setup_real :
      (Q : S → Type 0) → IsKept Q → (s : S) (c : InterfaceConfig) → Q s → Q (setup_real sys s c).0
  unfolding setup_real
  kept-setup_real Q k s c q =
      let R : S × Option Command → Type 0 = λ r. Q r.0 in
      if_all R (not (sys.interface_exists s c.name)) (λ _. q)
        λ _.
          if_all R (sys.interface_is_up s c.name) (λ _. q)
            λ _.
              kept-and_then Q (run_when sys (ltb 0 c.baudrate) (set_bitrate c.name c.baudrate) s)
                (λ s'. run sys s' (link_up c.name))
                (kept-run_when Q k (ltb 0 c.baudrate) (set_bitrate c.name c.baudrate) s q)
                (λ s' q'. kept-run Q k s' (link_up c.name) q')

  run_up :
      (s : S) (n : Text)
      → (run sys s (link_up n)).1 ≡ none
      → linux.is_set_up (run sys s (link_up n)).0 n ≡ true
  unfolding run
  run_up s n h = linux.brought_up s n (ground (arith, h))

  exists_after :
      (s : S) (n : Text)
      → (run_when sys (not (sys.interface_exists s n)) (link_add n) s).1 ≡ none
      → sys.interface_exists (run_when sys (not (sys.interface_exists s n)) (link_add n) s).0 n
        ≡ true
  unfolding run_when run
  exists_after s n =
      if_all (λ (r : S × Option Command). r.1 ≡ none → sys.interface_exists r.0 n ≡ true)
        (not (sys.interface_exists s n)) (λ _ h. linux.added s n (ground (arith, h)))
        (λ e h. ground (arith, e))

  up_after :
      (s : S) (n : Text)
      → (run_when sys (not (sys.interface_is_up s n)) (link_up n) s).1 ≡ none
      → linux.is_set_up (run_when sys (not (sys.interface_is_up s n)) (link_up n) s).0 n ≡ true
  unfolding run_when run
  up_after s n =
      if_all (λ (r : S × Option Command). r.1 ≡ none → linux.is_set_up r.0 n ≡ true)
        (not (sys.interface_is_up s n)) (λ _ h. linux.brought_up s n (ground (arith, h)))
        (λ e h. linux.operates s n (ground (arith, e)))

  pub setup_virtual_up :
      (s : S) (n : Text)
      → (setup_virtual sys s n).1 ≡ none
      → (sys.interface_exists (setup_virtual sys s n).0 n ≡ true)
        × (linux.is_set_up (setup_virtual sys s n).0 n ≡ true)
  unfolding setup_virtual
  setup_virtual_up s n h =
      let r = run_when sys (not (sys.interface_exists s n)) (link_add n) s in
      let f = λ (s' : S). run_when sys (not (sys.interface_is_up s' n)) (link_up n) s' in
      let (a, b, e) = and_then-none r f h in
      rw (ap (λ x. x.0) e) (
        kept-run_when (λ s'. sys.interface_exists s' n ≡ true) (λ s' c. linux.exists_kept s' c n)
            (not (sys.interface_is_up r.0 n)) (link_up n) r.0 (exists_after s n a),
        up_after r.0 n b,
      )

  pub setup_real_up :
      (s : S) (c : InterfaceConfig)
      → sys.interface_exists s c.name ≡ true
      → (setup_real sys s c).1 ≡ none
      → linux.is_set_up (setup_real sys s c).0 c.name ≡ true
  unfolding setup_real
  setup_real_up s c x =
      let Q : S × Option Command → Type 0 = λ r. r.1 ≡ none → linux.is_set_up r.0 c.name ≡ true in
      if_all Q (not (sys.interface_exists s c.name)) (λ e h. ground (arith, e, x))
        λ _.
          if_all Q (sys.interface_is_up s c.name) (λ e h. linux.operates s c.name e)
            λ _ h.
              let r = run_when sys (ltb 0 c.baudrate) (set_bitrate c.name c.baudrate) s in
              let (a, b, e) = and_then-none r (λ s'. run sys s' (link_up c.name)) h in
              rw (ap (λ z. z.0) e) (run_up r.0 c.name b)

  pub and_then_fst :
      (r : S × Option Command) (f : S → S × Option Command)
      → (and_then sys r f).1 ≡ none
      → (and_then sys r f).0 ≡ (f r.0).0
  and_then_fst r f h = ap (λ x. x.0) (and_then-none r f h).2
