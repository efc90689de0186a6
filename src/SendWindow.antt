-- ===== src/SendWindow.antt =====
-- src/gui/SendWindow.cpp: the window that edits a message and asks for actions. Dear ImGui draws and tells in the same
-- call what the user did, so a frame of the window is a function of its state and of what ImGui returns.
pub mod Frames
pub mod Shape
pub mod Edits
pub mod Laws
mod Tests
use caneo.Common.Ieee.{Double, Ieee}
use caneo.Config.{InterfaceConfig}
use caneo.Dbc.{Loaded}
use caneo.Send.{SendModel, SendMessage, SendSignal, new_model, set_value, encode}
use caneo.Send
use caneo.Action.{Action, Kind, single, periodic, sin}
use caneo.Preset.{EncodeFn, new_action, bytes_of, ◌>>◌}
use caneo.Common.{
  ℕ, ◌+◌, ◌-◌, ◌⊎◌, inl, inr, Bool, true, false, not, Option, none, some, List, [], ◌∷◌, ◌++◌, map,
  ltb, if◌then◌else◌, length, get_elem?, set, is_empty,
}
use caneo.Common.Text.{Text, codes}
use caneo.Common.Int.{ℤ, pos, ltb_ℤ}

pub record IfaceData : Type 0 where
  pub name : Text
  pub model : SendModel

-- An index is nothing where the source has -1. `added` are the calls of add_action.
pub record SendWindow : Type 0 where
  pub ifaces : List IfaceData
  pub popup_open : Bool
  pub popup_iface : Option ℕ
  pub popup_msg : Option ℕ
  pub editing_values : List Double
  pub period_buf : Text
  pub sin_sig_idx : ℕ
  pub sin_amplitude : Double
  pub sin_offset : Double
  pub sin_period_ms : ℤ
  pub sin_interval_ms : ℤ
  pub added : List (Action EncodeFn)

-- The loop of the constructor; the exception of a model leaves it.
unfoldable pub load_ifaces : (Text → Loaded) → List InterfaceConfig → List IfaceData ⊎ Send.Error
unfolding new_model
load_ifaces load [] = inl []
load_ifaces load (cfg ∷ cfgs) =
    let rest = load_ifaces load cfgs in
    if is_empty cfg.dbc then rest else elim (new_model (load cfg.dbc)) [
      | inr e ↦ inr e
      | inl model ↦ elim rest [
        | inr e ↦ inr e
        | inl others ↦ inl (record { name = cfg.name; model = model } ∷ others)
      ]
    ]

-- The members at the start; `one` is 1.0.
unfoldable pub new_send_window : Double → List IfaceData → SendWindow
new_send_window one ifaces = record {
  ifaces = ifaces;
  popup_open = false;
  popup_iface = none;
  popup_msg = none;
  editing_values = [];
  period_buf = codes "100";
  sin_sig_idx = 0;
  sin_amplitude = one;
  sin_offset = 0;
  sin_period_ms = pos 1000;
  sin_interval_ms = pos 10;
  added = [];
}

-- A message of the window, by its two indices.
unfoldable pub message_at : List IfaceData → ℕ → ℕ → Option SendMessage
message_at ifaces i j = elim (get_elem? ifaces i) [
  | none ↦ none
  | some iface ↦ get_elem? iface.model j
]

unfoldable pub values_of : Option SendMessage → List Double
values_of none = []
values_of (some m) = map (λ (s : SendSignal). s.value) m.signals

unfoldable pub open_popup : SendWindow → ℕ → ℕ → SendWindow
unfolding values_of message_at
open_popup w i j = record w {
  popup_iface = some i;
  popup_msg = some j;
  popup_open = true;
  editing_values = values_of (message_at w.ifaces i j);
}

-- `std::max(1, n)`
unfoldable pub at_least_one : ℤ → ℤ
at_least_one n = if ltb_ℤ (pos 1) n then n else pos 1

-- The inputs of the rows: the editor of row `k` may write the value at `k`. Nothing stands for a read behind the
-- values.
unfoldable pub edit_all :
    (ℕ → Double → Double) → ℕ → List SendSignal → List Double → Option (List Double)
edit_all f k [] vs = some vs
edit_all f k (s ∷ ss) [] = none
edit_all f k (s ∷ ss) (v ∷ vs) = edit_all f (k + 1) ss vs >> λ r. some (f k v ∷ r)

-- The loop that takes over the values into the model.
unfoldable pub store_values : SendModel → ℕ → ℕ → List SendSignal → List Double → Option SendModel
unfolding set_value
store_values model j k [] vs = some model
store_values model j k (s ∷ ss) [] = none
store_values model j k (s ∷ ss) (v ∷ vs) = store_values (set_value model j k v) j (k + 1) ss vs

-- What the buttons and inputs of the edit window return in one frame.
pub record EditInput : Type 0 where
  pub begun : Bool
  pub still_open : Bool
  pub table : Bool
  pub values : ℕ → Double → Double
  pub send_once : Bool
  pub send_periodic : Bool
  pub period : Text → Text
  pub sin_header : Bool
  -- The entry chosen in the list of signals, if the list is open and one is chosen.
  pub chosen_signal : Option ℕ
  pub amplitude : Double → Double
  pub offset : Double → Double
  pub sin_period : ℤ → ℤ
  pub interval : ℤ → ℤ
  pub start_sin : Bool

abbrev add_call : Action EncodeFn → SendWindow → SendWindow
add_call a w = record w { added = w.added ++ (a ∷ []) }

-- The message that is edited, with its indices.
pub record Edited : Type 0 where
  pub iface : ℕ
  pub index : ℕ
  pub name : Text
  pub msg : SendMessage

module _ (fp : Ieee) (atoi : Text → ℤ) (now : ℤ) (inp : EditInput) where
  -- The values into the model, and the model with its new values.
  unfoldable pub apply_values : Edited → SendWindow → Option (SendModel × SendWindow)
  unfolding store_values
  apply_values e w = get_elem? w.ifaces e.iface >> λ iface.
      store_values iface.model e.index 0 e.msg.signals w.editing_values >> λ model.
      some (model, record w { ifaces = set w.ifaces e.iface (record iface { model = model }) })

  -- An action, at an address of its own.
  unfoldable pub add_kind : Edited → Kind EncodeFn → List ℕ → SendWindow → SendWindow
  add_kind e kind payload w = add_call (new_action (length w.added) e.name e.msg kind payload) w

  unfoldable pub send_once : Edited → SendWindow → Option SendWindow
  unfolding apply_values add_kind encode
  send_once e w =
      if not inp.send_once
      then some w
      else apply_values e w >> λ r. some (add_kind e single (bytes_of (encode fp r.0 e.index)) r.1)

  unfoldable pub send_periodic : Edited → SendWindow → Option SendWindow
  unfolding apply_values add_kind encode at_least_one
  send_periodic e w =
      if not inp.send_periodic
      then some w
      else apply_values e w >> λ r. some (
          add_kind e (periodic (at_least_one (atoi w.period_buf)))
            (bytes_of (encode fp r.0 e.index)) r.1)

  -- The inputs below the header "Send Sin".
  unfoldable pub edit_sin : SendWindow → SendWindow
  unfolding at_least_one
  edit_sin w = record w {
    sin_amplitude = inp.amplitude w.sin_amplitude;
    sin_offset = inp.offset w.sin_offset;
    sin_period_ms = at_least_one (inp.sin_period w.sin_period_ms);
    sin_interval_ms = at_least_one (inp.interval w.sin_interval_ms);
  }

  unfoldable pub start_sin : Edited → SendSignal → SendWindow → Option SendWindow
  unfolding apply_values add_kind encode
  start_sin e ssig w =
      if not inp.start_sin
      then some w
      else apply_values e w >> λ r. some (
          let f : EncodeFn = record {
            base_payload = bytes_of (encode fp r.0 e.index);
            isig = ssig.sig;
            y_lo = ssig.min_val;
            y_hi = ssig.max_val;
          } in
          add_kind e (sin w.sin_interval_ms f w.sin_amplitude w.sin_period_ms w.sin_offset now 0) []
            r.1)

  -- The name of the selected signal is read before the list can change the selection; nothing where
  -- there is none.
  unfoldable pub sin_part : Edited → SendWindow → Option SendWindow
  unfolding edit_sin start_sin
  sin_part e w =
      if not inp.sin_header
      then some w
      else get_elem? e.msg.signals w.sin_sig_idx >> λ preview.
          let idx : ℕ = elim inp.chosen_signal [ none ↦ w.sin_sig_idx | some k ↦ k ] in
          get_elem? e.msg.signals
            (if ltb idx (length e.msg.signals) then idx else length e.msg.signals - 1)
          >> λ ssig. start_sin e ssig (edit_sin (record w { sin_sig_idx = idx }))
