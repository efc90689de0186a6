-- ===== src/Config/Laws.antt =====
-- What is read of a configuration: src/config/Config.cpp, lines 17-56, and src/config/AppConfig.cpp, lines 46-51.
use mathlib.Core.Path.{ap₂}
use caneo.Common.{
  ℕ, ◌≡◌, refl, sym, ap, ◌∙◌, inl, inr, Bool, true, not, Option, none, some, List, [], ◌∷◌, ◌++◌,
  map, arith, ◌==◌, Option-cases, all,
}
use caneo.Preset.{◌>>◌}
use caneo.Config.{
  InterfaceConfig, Config, Node, Files, Body, missing, other, scalar, fields, read_body,
  read_interfaces, finish, with_interfaces, settings, parse_config,
}
use caneo.Config.AppConfig.{split_colon, parse_spec}
use caneo.Common.Text.{Text}
use caneo.Common.OrderedMap.{nat_key, text_key, pair_key}

abbrev pub no_colon : ℕ → Bool
no_colon c = not (c == b':')

split_colon-append :
    (name rest : Text)
    → all no_colon name ≡ true
    → split_colon (name ++ (b':' ∷ rest)) ≡ (name, some rest)
unfolding split_colon
split_colon-append [] rest h = refl
split_colon-append (c ∷ cs) rest h = ground (arith, split_colon-append cs rest)

split_colon-none : (name : Text) → all no_colon name ≡ true → split_colon name ≡ (name, none)
unfolding split_colon
split_colon-none [] h = refl
split_colon-none (c ∷ cs) h = ground (arith, split_colon-none cs)

-- An interface argument is read back as it is written, with or without a DBC path: the name ends at
-- the first colon, so the path may hold colons.
pub parse_spec_lem :
    (name dbc : Text)
    → all no_colon name ≡ true
    → let cfg : Text → InterfaceConfig =
        λ d. record { name = name; dbc = d; actions_file = []; baudrate = 0 } in
      (parse_spec (name ++ (b':' ∷ dbc)) ≡ cfg dbc) × (parse_spec name ≡ cfg [])
unfolding parse_spec
parse_spec_lem name dbc h = (
  rw (split_colon-append name dbc h, parse_spec) refl,
  rw (split_colon-none name h, parse_spec) refl,
)

read_body_name :
    (name : Text) (b : Body) (cfg : InterfaceConfig) → read_body name b ≡ some cfg → cfg.name ≡ name
unfolding read_body
read_body_name name missing cfg h = ground (arith, h)
read_body_name name other cfg h = ground (arith, h)
read_body_name name (scalar none) cfg h = cc
read_body_name name (scalar (some d)) cfg h = ground (arith, h)
read_body_name name (fields d b a) cfg h = ground (arith, h)

abbrev pub names_of : List (Option Text × Body) → List (Option Text)
names_of es = map (λ (e : Option Text × Body). e.0) es

bind_some :
    {A B : Type 0} (o : Option A) (k : A → Option B) (b : B)
    → (o >> k) ≡ some b
    → (a : A) × ((o ≡ some a) × (k a ≡ some b))
bind_some none k b h = cc
bind_some (some a) k b h = (a, (refl, h))

list_or_empty : {A : Type 0} → Option (List A) → List A
list_or_empty none = []
list_or_empty (some xs) = xs

read_interfaces_names :
    (es : List (Option Text × Body)) (cfgs : List InterfaceConfig)
    → read_interfaces es ≡ some cfgs
    → names_of es ≡ map (λ (c : InterfaceConfig). some c.name) cfgs
unfolding read_interfaces list_or_empty
read_interfaces_names [] cfgs h =
    ap (λ o. map (λ (c : InterfaceConfig). some c.name) (list_or_empty o)) h
read_interfaces_names ((none, b) ∷ es) cfgs h = cc
read_interfaces_names ((some name, b) ∷ es) cfgs h =
    let (cfg, (e, h1)) = bind_some (read_body name b) _ cfgs h in
    let (others, (k, h2)) = bind_some (read_interfaces es) (λ rest. some (cfg ∷ rest)) cfgs h1 in
    ap₂ ◌∷◌ (ap some (sym (read_body_name name b cfg e))) (read_interfaces_names es others k)
    ∙ ap (λ o. map (λ (c : InterfaceConfig). some c.name) (list_or_empty o)) h2

finish_names :
    (v : Bool) (l : Option Text) (g : Text) (o : Option (List InterfaceConfig)) (c : Config)
    → finish v l g o ≡ inl c
    → o ≡ some c.interfaces
unfolding finish
finish_names v l g none c h = cc
finish_names v l g (some cfgs) c h = ground (arith, h)

with_interfaces_names :
    (v : Bool) (l : Option Text) (g : Text) (o : Option (List (Option Text × Body))) (c : Config)
    → with_interfaces v l g o ≡ inl c
    → (entries : List (Option Text × Body)) × ((o ≡ some entries)
        × (names_of entries ≡ map (λ (i : InterfaceConfig). some i.name) c.interfaces))
unfolding with_interfaces
with_interfaces_names v l g none c h = cc
with_interfaces_names v l g (some es) c h = (
  es,
  (refl, read_interfaces_names es c.interfaces (finish_names v l g (read_interfaces es) c h)),
)

parse_config-settings :
    (fs : Files) (root : Node) (x : Bool × (Option Text × Text))
    → settings fs root ≡ some x
    → parse_config fs root ≡ with_interfaces x.0 x.1.0 x.1.1 root.interfaces_key
unfolding parse_config
parse_config-settings fs root x e = rw (e, parse_config) refl

-- A configuration that is read has the interfaces of the file, in its order, one for each key: the
-- file had the key `interfaces`, and the names below it are those of the interfaces.
pub parse_config_names :
    (fs : Files) (root : Node) (c : Config)
    → parse_config fs root ≡ inl c
    → (entries : List (Option Text × Body)) × ((root.interfaces_key ≡ some entries)
        × (names_of entries ≡ map (λ (i : InterfaceConfig). some i.name) c.interfaces))
unfolding parse_config
parse_config_names fs root c h = elim (Option-cases (settings fs root)) [
  | inl e ↦ absurd (let q = h in cc (e, q))
  | inr (x, e) ↦
      with_interfaces_names x.0 x.1.0 x.1.1 root.interfaces_key c
        (sym (parse_config-settings fs root x e) ∙ h)
]
