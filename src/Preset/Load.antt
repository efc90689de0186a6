-- ===== src/Preset/Load.antt =====
-- load_action_presets of src/action/ActionPreset.cpp, and what its shared model does to the entries.
use caneo.Common.{
  ℕ, ◌+◌, ◌≡◌, refl, sym, ap, ◌∙◌, inl, inr, Bool, true, false, if◌then◌else◌, Option, none, some,
  List, [], ◌∷◌, get_elem?,
}
use caneo.Common.Text.{Text, codes, text_eq}
use caneo.Common.Int.{ℤ, pos}
use caneo.Common.OrderedMap.{nat_key, text_key, pair_key}
use caneo.Common.Ieee.{Double, Ieee}
use caneo.Dbc.{Loaded}
use caneo.Send.Encoding.{value_at}
use caneo.Send.{SendSignal, SendMessage, SendModel, new_model, encode}
use caneo.Action.{Action, periodic}
use caneo.Preset.Values.{
  msg_names-apply_signals, find_index-map, value_at-apply_signals, is_unnamed,
}
use caneo.Preset.{
  absent, value, Entry, ActionsFile, cannot_load, other_node, sequence, Error, load_failed,
  not_a_sequence, bad_conversion, model_failed, EncodeFn, find_index, find_msg_idx, bytes_of,
  apply_signals, new_action, periodic_entry, message_entry, found_entry, entry_action, ◌>>◌,
}

module _ (fp : Ieee) (one : Double) (now : ℤ) (address : ℕ → ℕ) (iface : Text) where
  -- The loop: the actions that are passed to add_action_paused, in this order, and whether the loop comes to its end;
  -- else an exception of a conversion has ended it. `n` actions have been before.
  pub load_entries : ℕ → SendModel → List Entry → List (Action EncodeFn) × Bool
  unfolding entry_action
  load_entries n model [] = ([], true)
  load_entries n model (e ∷ es) = elim (entry_action fp one now (address n) iface model e) [
    | none ↦ ([], false)
    | some (model', none) ↦ load_entries n model' es
    | some (model', some a) ↦ let more = load_entries (n + 1) model' es in (a ∷ more.0, more.1)
  ]

  -- What has been passed to add_action_paused, and the exception that leaves load_action_presets, if one does.
  -- An interface has a file of actions and a DBC file, or nothing is loaded.
  unfoldable pub load_action_presets :
      Option ActionsFile → Option Loaded → List (Action EncodeFn) × Option Error
  unfolding new_model load_entries
  load_action_presets none dbc = ([], none)
  load_action_presets (some file) none = ([], none)
  load_action_presets (some cannot_load) (some dbc) = ([], some load_failed)
  load_action_presets (some other_node) (some dbc) = ([], some not_a_sequence)
  load_action_presets (some (sequence entries)) (some dbc) = elim (new_model dbc) [
    | inr e ↦ ([], some (model_failed e))
    | inl model ↦
        let r = load_entries 0 model entries in (r.0, (if r.1 then none else some bad_conversion))
  ]

-- A periodic entry of a file, with the default period.
abbrev pub periodic_of : Text → List (Text × Option Double) → Entry
periodic_of name signals = record {
  entry_type = value (codes "periodic");
  msg = value name;
  period_ms = absent;
  signal = absent;
  amplitude = absent;
  offset = absent;
  sin_period = absent;
  interval_ms = absent;
  signals = signals;
}

module _ (fp : Ieee) (one : Double) (now : ℤ) (address : ℕ → ℕ) (iface : Text) where
  periodic_turn :
      (ptr : ℕ) (model model' : SendModel) (name : Text) (signals : List (Text × Option Double))
      (mi : ℕ) (m : SendMessage)
      → find_msg_idx model name ≡ some mi
      → get_elem? model mi ≡ some m
      → apply_signals model mi m signals ≡ some model'
      → entry_action fp one now ptr iface model (periodic_of name signals)
        ≡ some (
          model',
          some (new_action ptr iface m (periodic (pos 100)) (bytes_of (encode fp model' mi))),
        )
  unfolding entry_action found_entry message_entry periodic_entry
  periodic_turn ptr model model' name signals mi m find at applied =
      let e = periodic_of name signals in
      ap (λ o. found_entry fp one now ptr iface model o (codes "periodic") e) find
      ∙ ap (λ o. message_entry fp one now ptr iface model mi o (codes "periodic") e) at
      ∙ ap
          (λ (o : Option SendModel). o >> λ model'. some (
            model',
            some (new_action ptr iface m (periodic (pos 100)) (bytes_of (encode fp model' mi))),
          ))
          applied

  -- All entries of a file share one model. Wherever two periodic entries of one message with the default period follow
  -- one another, both become actions, and the second one sends, of each signal that it does not name itself, the value
  -- that the model had behind the first one; the entries behind them start from these values as well.
  pub earlier_values_stay :
      (n : ℕ) (model model' model'' : SendModel) (name : Text)
      (signals more : List (Text × Option Double)) (mi : ℕ) (m m' : SendMessage) (si : ℕ)
      (s : SendSignal) (es : List Entry)
      → find_msg_idx model name ≡ some mi
      → get_elem? model mi ≡ some m
      → apply_signals model mi m signals ≡ some model'
      → get_elem? model' mi ≡ some m'
      → apply_signals model' mi m' more ≡ some model''
      → get_elem? m'.signals si ≡ some s
      → is_unnamed s.name more ≡ true
      → let rest = load_entries fp one now address iface (n + 1 + 1) model'' es in
        (a b : Action EncodeFn) × (load_entries fp one now address iface n model
            (periodic_of name signals ∷ periodic_of name more ∷ es)
          ≡ (a ∷ b ∷ rest.0, rest.1))
        × (a.payload ≡ bytes_of (encode fp model' mi))
        × (b.payload ≡ bytes_of (encode fp model'' mi))
        × (value_at model'' mi si ≡ value_at model' mi si)
  unfolding load_entries
  earlier_values_stay n model model' model'' name signals more mi m m' si s es find at applied at'
        applied' sig unnamed =
      let names = msg_names-apply_signals mi m signals model model' applied in
      let find' : find_msg_idx model' name ≡ some mi =
        find_index-map (λ (x : SendMessage). x.name) name model'
        ∙ ap (find_index (λ k. text_eq k name)) names
        ∙ sym (find_index-map (λ (x : SendMessage). x.name) name model)
        ∙ find in
      let p = periodic_turn (address n) model model' name signals mi m find at applied in
      let q = periodic_turn (address (n + 1)) model' model'' name more mi m' find' at' applied' in
      (
        new_action (address n) iface m (periodic (pos 100)) (bytes_of (encode fp model' mi)),
        new_action (address (n + 1)) iface m' (periodic (pos 100))
            (bytes_of (encode fp model'' mi)),
        rw (p, load_entries, q) refl,
        refl,
        refl,
        value_at-apply_signals mi si m' s more model' model'' sig unnamed applied',
      )
