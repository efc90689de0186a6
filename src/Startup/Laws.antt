-- ===== src/Startup/Laws.antt =====
-- What the set-up of the interfaces leaves: src/setup/InterfaceSetup.cpp, lines 28-52.
use caneo.Startup.Commands.{
  IsLinux, IsKept, setup_all_lem, kept-setup_virtual, kept-setup_real, setup_virtual_up,
  setup_real_up, and_then-none, and_then_fst,
}
use caneo.Common.{
  if_all, ◌≡◌, refl, sym, inl, inr, Bool, true, false, not, ◌&&◌, ◌||◌, Option, none, arith,
  Bool-cases, All,
}
use caneo.Config.{InterfaceConfig, Config}
use caneo.Startup.{
  Command, modprobe_vcan, System, run, and_then, setup_virtual, setup_real, setup_all,
  setup_interfaces,
}
use caneo.Common.Text.{Text}
use caneo.Common.OrderedMap.{nat_key, text_key, pair_key}

-- An interface that was asked for, or that is there, is there and set up.
abbrev pub is_ready :
    {S : Type 0} (sys : System S) → IsLinux sys → Config → S → S → InterfaceConfig → Bool
is_ready sys linux cfg s s' c =
    not (cfg.virtual_can || sys.interface_exists s c.name)
    || (sys.interface_exists s' c.name && linux.is_set_up s' c.name)

module _ {S : Type 0} (sys : System S) (linux : IsLinux sys) where
  is_ready_kept :
      (cfg : Config) (s : S) (c : InterfaceConfig)
      → IsKept sys linux (λ s'. is_ready sys linux cfg s s' c ≡ true)
  is_ready_kept cfg s c s' d h =
      ground (arith, h, linux.exists_kept s' d c.name, linux.up_kept s' d c.name)

  virtual_ready :
      (cfg : Config) (s s' u : S)
      → cfg.virtual_can ≡ true
      → (setup_all sys (λ z c. setup_virtual sys z c.name) cfg.interfaces s').1 ≡ none
      → (setup_all sys (λ z c. setup_virtual sys z c.name) cfg.interfaces s').0 ≡ u
      → All (λ c. is_ready sys linux cfg s u c ≡ true) cfg.interfaces
  virtual_ready cfg s s' u v h q =
      setup_all_lem sys linux (λ z c. setup_virtual sys z c.name) (λ z. Unit)
        (λ c z. is_ready sys linux cfg s z c ≡ true) (λ z c i. tt)
        (λ z c d.
          kept-setup_virtual sys linux (λ y. is_ready sys linux cfg s y d ≡ true)
            (is_ready_kept cfg s d) z c.name)
        (λ z c i e. ground (arith, v, setup_virtual_up sys linux z c.name e)) cfg.interfaces s' u tt
        h q

  real_ready :
      (cfg : Config) (s u : S)
      → cfg.virtual_can ≡ false
      → (setup_all sys (setup_real sys) cfg.interfaces s).1 ≡ none
      → (setup_all sys (setup_real sys) cfg.interfaces s).0 ≡ u
      → All (λ c. is_ready sys linux cfg s u c ≡ true) cfg.interfaces
  real_ready cfg s u v h q =
      let Known : S → Text → Type 0 = λ z n. sys.interface_exists z n ≡ true in
      let still = λ (z : S) (c : InterfaceConfig) (n : Text) (x : Known z n).
        kept-setup_real sys linux (λ y. Known y n) (λ y d. linux.exists_kept y d n) z c x in
      setup_all_lem sys linux (setup_real sys) (λ z. (n : Text) → Known s n → Known z n)
        (λ c z. is_ready sys linux cfg s z c ≡ true) (λ z c i n x. still z c n (i n x))
        (λ z c d.
          kept-setup_real sys linux (λ y. is_ready sys linux cfg s y d ≡ true)
            (is_ready_kept cfg s d) z c)
        (λ z c i e. elim (Bool-cases (sys.interface_exists s c.name)) [
          | inr f ↦ ground (arith, v, f)
          | inl x ↦
              let w = i c.name x in
              ground (arith, still z c c.name w, setup_real_up sys linux z c w e)
        ])
        cfg.interfaces s u (λ n x. x) h q

-- Where the set-up does not fail, every interface that it is about is there and set up afterwards: with
-- `virtual: true` all interfaces of the configuration, else those that were there before.
pub setup_interfaces_lem :
    {S : Type 0} (sys : System S) (linux : IsLinux sys) (cfg : Config) (s : S)
    → (setup_interfaces sys cfg s).1 ≡ none
    → All (λ c. is_ready sys linux cfg s (setup_interfaces sys cfg s).0 c ≡ true) cfg.interfaces
unfolding setup_interfaces
setup_interfaces_lem {S = S} sys linux cfg s =
    let Good : S × Option Command → Type 0 =
      λ r. r.1 ≡ none → All (λ c. is_ready sys linux cfg s r.0 c ≡ true) cfg.interfaces in
    if_all Good cfg.virtual_can
      (λ v h.
        let f = setup_all sys (λ z c. setup_virtual sys z c.name) cfg.interfaces in
        let first = run sys s modprobe_vcan in
        let (a, b, e) = and_then-none sys linux first f h in
        virtual_ready sys linux cfg s first.0 (and_then sys first f).0 v b
          (sym (and_then_fst sys linux first f h)))
      (λ v h.
        real_ready sys linux cfg s (setup_all sys (setup_real sys) cfg.interfaces s).0 v h refl)
