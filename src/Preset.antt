-- ===== src/Preset.antt =====
-- src/action/ActionPreset.cpp: the actions that a YAML file asks for. The nodes of yaml-cpp are what the loader asks
-- them for.
pub mod Values
pub mod Load
mod Tests
use caneo.Common.{ℕ, ◌+◌, Bool, false, Option, none, some, List, [], ◌∷◌, if◌then◌else◌, get_elem?}
use caneo.Common.Text.{Text, codes, text_eq}
use caneo.Common.Int.{ℤ, pos}
use caneo.Common.Ieee.{Double, Ieee}
use caneo.Dbc.{Signal}
use caneo.Send.{SendSignal, SendMessage, SendModel, set_value, encode}
use caneo.Send
use caneo.Action.{Kind, periodic, sin, Action}

-- `entry[key].as<A>()`: no such key, a value that does not convert, which throws, or a value.
pub data Field (A : Type 0) : Type 0 where
  absent bad : Field A
  value : A → Field A

-- `signals` has the entries of a map, each value as a number if it is one; it is empty for any other node.
pub record Entry : Type 0 where
  pub entry_type : Field Text
  pub msg : Field Text
  pub period_ms : Field ℤ
  pub signal : Field Text
  pub amplitude : Field Double
  pub offset : Field Double
  pub sin_period : Field ℤ
  pub interval_ms : Field ℤ
  pub signals : List (Text × Option Double)

-- An actions file.
pub data ActionsFile : Type 0 where
  cannot_load other_node : ActionsFile
  sequence : List Entry → ActionsFile

pub data Error : Type 0 where
  load_failed not_a_sequence bad_conversion : Error
  model_failed : Send.Error → Error

-- What `encode_fn` captures.
pub record EncodeFn : Type 0 where
  pub base_payload : List ℕ
  pub isig : Signal
  pub y_lo : Double
  pub y_hi : Double

-- The first index at which a test holds, nothing for -1.
pub find_index : {A : Type 0} → (A → Bool) → List A → Option ℕ
find_index p [] = none
find_index p (x ∷ xs) =
    let rest = find_index p xs in
    if p x then some 0 else elim rest [ none ↦ none | some i ↦ some (i + 1) ]

abbrev pub find_msg_idx : SendModel → Text → Option ℕ
find_msg_idx model name = find_index (λ (m : SendMessage). text_eq m.name name) model

abbrev pub find_sig_idx : SendMessage → Text → Option ℕ
find_sig_idx msg name = find_index (λ (s : SendSignal). text_eq s.name name) msg.signals

-- `entry[key] ? entry[key].as<A>() : d`
abbrev pub given_or : {A : Type 0} → A → Field A → Option A
given_or d absent = some d
given_or d bad = none
given_or d (value a) = some a

-- A chain of conversions, which the first exception ends.
infixl 40 ◌>>◌
abbrev pub ◌>>◌ : {A B : Type 0} → Option A → (A → Option B) → Option B
none >> k = none
some a >> k = k a

abbrev pub bytes_of : Option (List ℕ) → List ℕ
bytes_of none = []
bytes_of (some bytes) = bytes

-- The loop of apply_signals_and_encode.
pub apply_signals : SendModel → ℕ → SendMessage → List (Text × Option Double) → Option SendModel
unfolding set_value find_index
apply_signals model mi msg [] = some model
apply_signals model mi msg ((name, v) ∷ rest) = elim (find_sig_idx msg name) [
  | none ↦ apply_signals model mi msg rest
  | some k ↦ elim v [ none ↦ none | some x ↦ apply_signals (set_value model mi k x) mi msg rest ]
]

-- A new action, at its address.
abbrev pub new_action : ℕ → Text → SendMessage → Kind EncodeFn → List ℕ → Action EncodeFn
new_action ptr interface msg kind payload = record {
  ptr = ptr;
  kind = kind;
  interface = interface;
  msg_id = msg.id;
  msg_name = msg.name;
  payload = payload;
  last_sent = pos 0;
  ever_sent = false;
  paused = false;
  armed = none;
}

module _ (fp : Ieee) where
  -- `encode_fn`, with std::clamp.
  pub encode_value : EncodeFn → Double → List ℕ
  encode_value e v =
      let lowest = if fp.lt v e.y_lo then e.y_lo else if fp.lt e.y_hi v then e.y_hi else v in
      e.isig.encode (e.isig.phys_to_raw (if fp.lt e.y_lo e.y_hi then lowest else v)) e.base_payload

  -- The model behind an entry, and the action that the entry adds; nothing is an exception.
  abbrev pub Added : Type 0
  Added = Option (SendModel × Option (Action EncodeFn))

  pub periodic_entry : ℕ → Text → SendModel → ℕ → SendMessage → Entry → Added
  unfolding apply_signals encode
  periodic_entry ptr iface model mi msg e = given_or (pos 100) e.period_ms >> λ period_ms.
      apply_signals model mi msg e.signals >> λ model'. some (
        model',
        some (new_action ptr iface msg (periodic period_ms) (bytes_of (encode fp model' mi))),
      )

  -- `now` is the clock that the action's constructor reads, and 1.0 a number of the library.
  pub sin_entry : Double → ℤ → ℕ → Text → SendModel → ℕ → SendMessage → Entry → Added
  unfolding apply_signals encode find_index
  sin_entry one now ptr iface model mi msg e = given_or [] e.signal >> λ sig_name.
      elim (find_sig_idx msg sig_name) [
        | none ↦ some (model, none)
        | some k ↦ given_or one e.amplitude >> λ amplitude. given_or 0 e.offset >> λ offset.
            given_or (pos 1000) e.sin_period >> λ period_ms.
            given_or (pos 20) e.interval_ms >> λ interval_ms.
            apply_signals model mi msg e.signals >> λ model'. elim (get_elem? msg.signals k) [
              | none ↦ some (model', none)
              | some s ↦
                  let f : EncodeFn = record {
                    base_payload = bytes_of (encode fp model' mi);
                    isig = s.sig;
                    y_lo = s.min_val;
                    y_hi = s.max_val;
                  } in
                  some (
                    model',
                    some (
                        new_action ptr iface msg
                          (sin interval_ms f amplitude period_ms offset now 0) []),
                  )
            ]
      ]

  -- An entry behind the look-up of its message, and one turn of the loop over the entries.
  pub message_entry :
      Double → ℤ → ℕ → Text → SendModel → ℕ → Option SendMessage → Text → Entry → Added
  unfolding periodic_entry sin_entry
  message_entry one now ptr iface model mi none type_name e = some (model, none)
  message_entry one now ptr iface model mi (some msg) type_name e =
      if text_eq type_name (codes "periodic")
      then periodic_entry ptr iface model mi msg e
      else if text_eq type_name (codes "sin")
      then sin_entry one now ptr iface model mi msg e
      else some (model, none)

  pub found_entry : Double → ℤ → ℕ → Text → SendModel → Option ℕ → Text → Entry → Added
  unfolding message_entry
  found_entry one now ptr iface model none type_name e = some (model, none)
  found_entry one now ptr iface model (some mi) type_name e =
      message_entry one now ptr iface model mi (get_elem? model mi) type_name e

  pub entry_action : Double → ℤ → ℕ → Text → SendModel → Entry → Added
  unfolding found_entry find_index
  entry_action one now ptr iface model e = given_or [] e.entry_type >> λ type_name.
      given_or [] e.msg >> λ msg_name.
      found_entry one now ptr iface model (find_msg_idx model msg_name) type_name e
