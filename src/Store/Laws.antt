-- ===== src/Store/Laws.antt =====
-- What a SignalStore gives after frames: src/model/SignalStore.cpp.
use mathlib.Core.List.{append_assoc}
use caneo.Common.{
  ◌≡◌, refl, sym, ap, ◌∙◌, Bool, true, false, not, ◌&&◌, Option, none, some, List, [], ◌∷◌, ◌++◌,
  arith, ◌==◌, if◌then◌else◌, any, all, or_else, or_else_assoc,
}
use caneo.Common.Text.{Text, text_eq, text_eq_iff}
use caneo.Common.OrderedMap.{
  nat_key, text_key, pair_key, key_eq, key_eq_iff, lookup, insert, lookup-insert,
}
use caneo.Common.Ieee.{Double}
use caneo.Frame.{CanFrame, DecodedSignal}
use caneo.Topic.{split_slash}
use caneo.Topic.RoundTrip.{split_slash-append}
use caneo.Store.{SignalStore, prefix_of, store_all, update, get}

-- The last of the signals with a name.
abbrev pub last_named : Text → List DecodedSignal → Option Double
last_named name [] = none
last_named name (s ∷ ss) =
    or_else (last_named name ss) (if text_eq name s.name then some s.value else none)

last_keyed : Text → Text → List DecodedSignal → Option Double
last_keyed key prefix [] = none
last_keyed key prefix (s ∷ ss) =
    or_else (last_keyed key prefix ss)
      (if key_eq key (prefix ++ s.name) then some s.value else none)

if-or_else :
    (b : Bool) (v : Double) (o : Option Double)
    → (if b then some v else o) ≡ or_else (if b then some v else none) o
if-or_else true v o = refl
if-or_else false v o = refl

lookup-store_all :
    (key prefix : Text) (values : SignalStore) (ss : List DecodedSignal)
    → lookup key (store_all prefix values ss)
      ≡ or_else (last_keyed key prefix ss) (lookup key values)
unfolding store_all last_keyed
lookup-store_all key prefix values [] = refl
lookup-store_all key prefix values (s ∷ ss) =
    lookup-store_all key prefix (insert (prefix ++ s.name) s.value values) ss
    ∙ ap (or_else (last_keyed key prefix ss)) (
        lookup-insert (prefix ++ s.name) key s.value values
        ∙ if-or_else (key_eq key (prefix ++ s.name)) s.value (lookup key values))
    ∙ sym (
        or_else_assoc (last_keyed key prefix ss)
          (if key_eq key (prefix ++ s.name) then some s.value else none) (lookup key values))

abbrev pub has_slash : Text → Bool
has_slash t = any (λ c. c == b'/') t

abbrev full_key : Text → Text → Text → Text
full_key iface msg signal = iface ++ (b'/' ∷ (msg ++ (b'/' ∷ signal)))

some_inj {ℓ} : {A : Type ℓ} (a b : A) → some a ≡ some b → a ≡ b
some_inj a b h = cc

full_key-inj :
    (i j m n s t : Text)
    → has_slash i ≡ false
    → has_slash j ≡ false
    → has_slash m ≡ false
    → has_slash n ≡ false
    → full_key i m s ≡ full_key j n t
    → (i ≡ j) × (m ≡ n) × (s ≡ t)
full_key-inj i j m n s t hi hj hm hn e =
    let p = some_inj _ _ (
      sym (split_slash-append i (m ++ (b'/' ∷ s)) hi)
      ∙ ap split_slash e
      ∙ split_slash-append j (n ++ (b'/' ∷ t)) hj) in
    let q = some_inj _ _ (
      sym (split_slash-append m s hm)
      ∙ ap split_slash (ap (λ x. x.1) p)
      ∙ split_slash-append n t hn) in
    (ap (λ x. x.0) p, ap (λ x. x.0) q, ap (λ x. x.1) q)

Bool-ext : (a b : Bool) → (a ≡ true → b ≡ true) → (b ≡ true → a ≡ true) → a ≡ b
Bool-ext true true f g = refl
Bool-ext false false f g = refl
Bool-ext true false f g = sym (f refl)
Bool-ext false true f g = g refl

-- Whether a frame is of an interface and has a message's name.
abbrev pub is_of : Text → Text → CanFrame → Bool
is_of iface msg f = text_eq iface f.header.interface && text_eq msg f.msg_name

key_eq-prefix :
    (i m s : Text) (f : CanFrame) (name : Text)
    → has_slash i ≡ false
    → has_slash m ≡ false
    → has_slash f.header.interface ≡ false
    → has_slash f.msg_name ≡ false
    → key_eq (full_key i m s) (prefix_of f.header.interface f.msg_name ++ name)
      ≡ is_of i m f && text_eq s name
key_eq-prefix i m s f name hi hm hj hn =
    let j = f.header.interface in
    let n = f.msg_name in
    let e : prefix_of j n ++ name ≡ full_key j n name = simp append_assoc in
    ap (key_eq (full_key i m s)) e
    ∙ Bool-ext (key_eq (full_key i m s) (full_key j n name)) (is_of i m f && text_eq s name)
        (λ h.
          let k =
            full_key-inj i j m n s name hi hj hm hn
              ((key_eq_iff (full_key i m s) (full_key j n name)).0 h) in
          ground
            (arith, (text_eq_iff i j).1 k.0, (text_eq_iff m n).1 k.1, (text_eq_iff s name).1 k.2))
        (λ h. (key_eq_iff (full_key i m s) (full_key j n name)).1 (
          let a = (text_eq_iff i j).0 (ground (arith, h)) in
          let b = (text_eq_iff m n).0 (ground (arith, h)) in
          let c = (text_eq_iff s name).0 (ground (arith, h)) in rw (a, b, c) refl))

-- What a frame says of a signal.
abbrev pub said : Text → Text → Text → CanFrame → Option Double
said iface msg signal f = if is_of iface msg f then last_named signal f.decoded else none

last_keyed-said :
    (i m s prefix : Text) (b : Bool) (ss : List DecodedSignal)
    → ((name : Text) → key_eq (full_key i m s) (prefix ++ name) ≡ b && text_eq s name)
    → last_keyed (full_key i m s) prefix ss ≡ (if b then last_named s ss else none)
unfolding last_keyed
last_keyed-said i m s prefix true [] h = refl
last_keyed-said i m s prefix false [] h = refl
last_keyed-said i m s prefix true (x ∷ ss) h =
    rw (last_keyed-said i m s prefix true ss h, h x.name) refl
last_keyed-said i m s prefix false (x ∷ ss) h =
    rw (last_keyed-said i m s prefix false ss h, h x.name) refl

get-update :
    (values : SignalStore) (f : CanFrame) (i m s : Text)
    → has_slash i ≡ false
    → has_slash m ≡ false
    → has_slash f.header.interface ≡ false
    → has_slash f.msg_name ≡ false
    → get (update values f) i m s ≡ or_else (said i m s f) (get values i m s)
unfolding get update
get-update values f i m s hi hm hj hn =
    lookup-store_all (full_key i m s) (prefix_of f.header.interface f.msg_name) values f.decoded
    ∙ ap (λ o. or_else o (lookup (full_key i m s) values))
        (last_keyed-said i m s (prefix_of f.header.interface f.msg_name) (is_of i m f) f.decoded
          (λ name. key_eq-prefix i m s f name hi hm hj hn))

-- What the last frame that speaks of a signal says.
abbrev pub latest : Text → Text → Text → List CanFrame → Option Double
latest iface msg signal [] = none
latest iface msg signal (f ∷ fs) = or_else (latest iface msg signal fs) (said iface msg signal f)

abbrev pub updates : SignalStore → List CanFrame → SignalStore
updates values [] = values
updates values (f ∷ fs) = updates (update values f) fs

abbrev pub is_named : CanFrame → Bool
is_named f = not (has_slash f.header.interface) && not (has_slash f.msg_name)

pub get-updates :
    (values : SignalStore) (fs : List CanFrame) (i m s : Text)
    → has_slash i ≡ false
    → has_slash m ≡ false
    → all is_named fs ≡ true
    → get (updates values fs) i m s ≡ or_else (latest i m s fs) (get values i m s)
get-updates values [] i m s hi hm h = refl
get-updates values (f ∷ fs) i m s hi hm h =
    get-updates (update values f) fs i m s hi hm (ground (arith, h))
    ∙ ap (or_else (latest i m s fs))
        (get-update values f i m s hi hm (ground (arith, h)) (ground (arith, h)))
    ∙ sym (or_else_assoc (latest i m s fs) (said i m s f) (get values i m s))
