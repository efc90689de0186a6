-- ===== src/SendWindow/Shape.antt =====
-- The edited message and its values, and what the buttons of the send window keep: src/gui/SendWindow.cpp.
use caneo.Common.{
  get_elem?-set, ℕ, zero, suc, ◌+◌, ◌≡◌, refl, sym, ap, ◌∙◌, Bool, true, ◌&&◌, Option, none, some,
  List, [], ◌∷◌, ◌++◌, arith, length, get_elem?, all,
}
use caneo.Common.Ieee.{Double, Ieee}
use caneo.Preset.{◌>>◌, EncodeFn}
use caneo.Action.{Action, Kind, single, periodic, sin}
use caneo.Send.{SendModel, SendMessage, SendSignal, set_signal, set_value}
use caneo.SendWindow.{
  IfaceData, SendWindow, at_least_one, edit_all, store_values, EditInput, Edited, apply_values,
  add_kind,
}
use caneo.SendWindow.Frames.{edited}
use caneo.Common.Text.{Text}
use caneo.Common.Int.{ℤ, pos, ltb_ℤ}
use caneo.Common.OrderedMap.{nat_key, text_key, pair_key}

-- A property of the result, or of the undefined read.
abbrev pub Ok : {A : Type 0} → Type 0 → (A → Type 0) → Option A → Type 0
Ok Q P none = Q
Ok Q P (some a) = P a

pub Ok-bind :
    {A B : Type 0} (Q : Type 0) (P : A → Type 0) (R : B → Type 0) (o : Option A) (k : A → Option B)
    → Ok Q P o
    → ((a : A) → P a → Ok Q R (k a))
    → Ok Q R (o >> k)
Ok-bind Q P R none k h f = h
Ok-bind Q P R (some a) k h f = f a h

-- The message at an index has `n` signals.
abbrev pub ShapeAt : ℕ → ℕ → SendModel → Type 0
ShapeAt n j model = (m : SendMessage) × ((get_elem? model j ≡ some m) × (length m.signals ≡ n))

length-set_signal :
    (ss : List SendSignal) (k : ℕ) (v : Double) → length (set_signal ss k v) ≡ length ss
unfolding set_signal
length-set_signal [] k v = refl
length-set_signal (s ∷ ss) zero v = refl
length-set_signal (s ∷ ss) (suc k) v = ap suc (length-set_signal ss k v)

abbrev signals_of : Option SendMessage → List SendSignal
signals_of none = []
signals_of (some m) = m.signals

set_value-ShapeAt :
    (n : ℕ) (model : SendModel) (j k : ℕ) (v : Double)
    → ShapeAt n j model
    → ShapeAt n j (set_value model j k v)
unfolding set_value
set_value-ShapeAt n [] j k v (m, (e, h)) = (m, (e, h))
set_value-ShapeAt n (x ∷ xs) zero k v (m, (e, h)) = (
  record x { signals = set_signal x.signals k v },
  (refl, length-set_signal x.signals k v ∙ (ap (λ o. length (signals_of o)) e ∙ h)),
)
set_value-ShapeAt n (x ∷ xs) (suc j) k v h = set_value-ShapeAt n xs j k v h

store_values-ShapeAt :
    (Q : Type 0) (n : ℕ) (model : SendModel) (j k : ℕ) (ss : List SendSignal) (vs : List Double)
    → length vs ≡ length ss
    → ShapeAt n j model
    → Ok Q (ShapeAt n j) (store_values model j k ss vs)
unfolding store_values
store_values-ShapeAt Q n model j k [] vs e h = h
store_values-ShapeAt Q n model j k (s ∷ ss) [] e h = absurd (omega (arith, e))
store_values-ShapeAt Q n model j k (s ∷ ss) (v ∷ vs) e h =
    store_values-ShapeAt Q n (set_value model j k v) j (k + 1) ss vs (omega (arith, e))
      (set_value-ShapeAt n model j k v h)

pub length-edit_all :
    (Q : Type 0) (f : ℕ → Double → Double) (k : ℕ) (ss : List SendSignal) (vs : List Double)
    → length vs ≡ length ss
    → Ok Q (λ r. length r ≡ length ss) (edit_all f k ss vs)
unfolding edit_all
length-edit_all Q f k [] vs e = e
length-edit_all Q f k (s ∷ ss) [] e = absurd (omega (arith, e))
length-edit_all Q f k (s ∷ ss) (v ∷ vs) e =
    Ok-bind Q (λ r. length r ≡ length ss) (λ r. length r ≡ suc (length ss))
      (edit_all f (k + 1) ss vs) (λ r. some (f k v ∷ r))
      (length-edit_all Q f (k + 1) ss vs (omega (arith, e))) (λ r h. ap suc h)

abbrev pub is_positive : ℤ → Bool
is_positive = ltb_ℤ (pos 0)

-- The period of an action, and of the curve of a sin action.
abbrev pub is_paced_kind : Kind EncodeFn → Bool
is_paced_kind single = true
is_paced_kind (periodic p) = is_positive p
is_paced_kind (sin i e x p o r c) = is_positive i && is_positive p

abbrev pub is_paced : Action EncodeFn → Bool
is_paced a = is_paced_kind a.kind

pub record IsPaced (w : SendWindow) : Type 0 where
  pub sin_period : is_positive w.sin_period_ms ≡ true
  pub interval : is_positive w.sin_interval_ms ≡ true
  pub actions : all is_paced w.added ≡ true

-- The window while it edits one message.
pub record Fits (e : Edited) (idx : ℕ) (w : SendWindow) : Type 0 where
  pub at_iface : w.popup_iface ≡ some e.iface
  pub at_index : w.popup_msg ≡ some e.index
  pub iface_data :
      (d : IfaceData) × ((get_elem? w.ifaces e.iface ≡ some d)
        × ShapeAt (length e.msg.signals) e.index d.model)
  pub edits : length w.editing_values ≡ length e.msg.signals
  pub selected : w.sin_sig_idx ≡ idx
  pub paced : IsPaced w

-- The values that are edited are those of the signals of the message.
pub record IsConsistent (w : SendWindow) : Type 0 where
  pub edits : (e : Edited) → edited w ≡ some e → length w.editing_values ≡ length e.msg.signals
  pub paced : IsPaced w

pub edited-at :
    (w : SendWindow) (i j : ℕ) (d : IfaceData) (m : SendMessage)
    → w.popup_iface ≡ some i
    → w.popup_msg ≡ some j
    → get_elem? w.ifaces i ≡ some d
    → get_elem? d.model j ≡ some m
    → edited w ≡ some (record { iface = i; index = j; name = d.name; msg = m })
unfolding edited
edited-at w i j d m a b c e = rw (a, b, c, e, edited) refl

abbrev pub count_of : Option Edited → ℕ
count_of none = 0
count_of (some e) = length e.msg.signals

pub Fits-IsConsistent : (e : Edited) (idx : ℕ) (w : SendWindow) → Fits e idx w → IsConsistent w
Fits-IsConsistent e idx w f =
    let (d, (c, (m, (g, n)))) = f.iface_data in
    record {
      edits = λ e' h.
          f.edits
          ∙ (sym n
              ∙ ap count_of (sym (edited-at w e.iface e.index d m f.at_iface f.at_index c g) ∙ h));
      paced = f.paced;
    }

pub at_least_one-positive : (n : ℤ) → is_positive (at_least_one n) ≡ true
unfolding at_least_one
at_least_one-positive n = ground arith

pub all-snoc :
    (l : List (Action EncodeFn)) (a : Action EncodeFn)
    → all is_paced l ≡ true
    → is_paced a ≡ true
    → all is_paced (l ++ (a ∷ [])) ≡ true
all-snoc [] a h k = ground (arith, k)
all-snoc (x ∷ l) a h k = ground (arith, all-snoc l a, h, k)

module _ (fp : Ieee) (atoi : Text → ℤ) (now : ℤ) (inp : EditInput) (e : Edited) (idx : ℕ) where
  -- Storing the model back keeps the shape of the window.
  pub apply_values-Fits :
      (Q : Type 0) (w : SendWindow)
      → Fits e idx w
      → Ok Q (λ r. Fits e idx r.1) (apply_values fp atoi now inp e w)
  unfolding apply_values
  apply_values-Fits Q w f =
      let (d, (c, h)) = f.iface_data in
      rw (c, apply_values)
        (Ok-bind Q (ShapeAt (length e.msg.signals) e.index) (λ r. Fits e idx r.1)
          (store_values d.model e.index 0 e.msg.signals w.editing_values) _
          (store_values-ShapeAt Q (length e.msg.signals) d.model e.index 0 e.msg.signals
            w.editing_values f.edits h)
          (λ model k. record {
            at_iface = f.at_iface;
            at_index = f.at_index;
            iface_data = (record d { model = model }, (get_elem?-set w.ifaces e.iface _ c, k));
            edits = f.edits;
            selected = f.selected;
            paced = record {
              sin_period = f.paced.sin_period;
              interval = f.paced.interval;
              actions = f.paced.actions;
            };
          }))

  pub add_kind-Fits :
      (kind : Kind EncodeFn) (payload : List ℕ) (w : SendWindow)
      → is_paced_kind kind ≡ true
      → Fits e idx w
      → Fits e idx (add_kind fp atoi now inp e kind payload w)
  unfolding add_kind
  add_kind-Fits kind payload w k f = record {
    at_iface = f.at_iface;
    at_index = f.at_index;
    iface_data = f.iface_data;
    edits = f.edits;
    selected = f.selected;
    paced = record {
      sin_period = f.paced.sin_period;
      interval = f.paced.interval;
      actions = all-snoc w.added _ f.paced.actions k;
    };
  }
