-- ===== src/Model/Laws.antt =====
-- What scripts see and what comes of their results: src/model.
use caneo.Common.{
  inl, inr, sym, Option, none, some, Option-cases, ◌≡◌, refl, ap, ◌∙◌, Bool, true, false, List, [],
  ◌∷◌, ◌++◌, map, if◌then◌else◌, all, or_else,
}
use caneo.Common.Text.{Text, codes}
use mathlib.Core.List.{append_assoc, append-nil}
use caneo.Common.OrderedMap.{nat_key, text_key, pair_key}
use caneo.Common.Ieee.{Double, Ieee}
use caneo.Frame.{CanFrame}
use caneo.Store.{update, get}
use caneo.Store.Laws.{latest, updates, has_slash, is_named, get-updates}
use caneo.Model.{
  Effect, log_scalar, output_cb, Script, ModelEngine, value_or_0, get_signal, LuaValue, float,
  integer, text, other, Returned, failed, table, single, to_double, entry_output, emit_entries,
  emit_single, emit_returned, emit, base_of, on_frame,
}

-- The values that the logger gets, and those that the callback gets.
abbrev pub logged : List Effect → List (Text × Double)
logged [] = []
logged (log_scalar topic v ∷ es) = (topic, v) ∷ logged es
logged (output_cb name v ∷ es) = logged es

abbrev pub called : List Effect → List (Text × Double)
called [] = []
called (log_scalar topic v ∷ es) = called es
called (output_cb name v ∷ es) = (name, v) ∷ called es

abbrev pub under : Text → List (Text × Double) → List (Text × Double)
under base outs = map (λ (o : Text × Double). (base ++ o.0, o.1)) outs

module _ (fp : Ieee) where
  -- A number of Lua.
  abbrev pub number_of : LuaValue → Option Double
  number_of (float x) = some x
  number_of (integer n) = some (fp.of_long n)
  number_of (text t) = none
  number_of other = none

  abbrev pub named_output : LuaValue → Option Double → List (Text × Double)
  named_output (text name) (some v) = (name, v) ∷ []
  named_output key v = []

  -- The outputs that a result has: the entries of a table with a text and a number, or one number.
  abbrev pub table_outputs : List (LuaValue × LuaValue) → List (Text × Double)
  table_outputs [] = []
  table_outputs ((key, value) ∷ rest) = named_output key (number_of value) ++ table_outputs rest

  abbrev pub outputs : Returned → List (Text × Double)
  outputs failed = []
  outputs (table entries) = table_outputs entries
  outputs (single value) = named_output (text (codes "output")) (number_of value)

  abbrev emit_all : Bool → Bool → Text → List (Text × Double) → List Effect
  emit_all has_logger has_callback base [] = []
  emit_all has_logger has_callback base ((n, v) ∷ os) =
      (if has_logger then log_scalar (base ++ n) v ∷ [] else [])
      ++ ((if has_callback then output_cb n v ∷ [] else [])
          ++ emit_all has_logger has_callback base os)

  to_double_lem : (x : LuaValue) → to_double fp x ≡ number_of x
  unfolding to_double
  to_double_lem (float x) = refl
  to_double_lem (integer n) = refl
  to_double_lem (text t) = refl
  to_double_lem other = refl

  -- One entry of a table, as the loop takes it.
  text_entry_lem :
      (has_logger has_callback : Bool) (base name : Text) (a b : Option Double)
      → a ≡ b
      → (more : List Effect) (rest : List (Text × Double))
      → more ≡ emit_all has_logger has_callback base rest
      → elim (elim a as (λ _. Option (Text × Double)) [ none ↦ none | some v ↦ some (name, v) ])
          as (λ _. List Effect) [
            | none ↦ more
            | some o ↦ emit fp has_logger has_callback base o ++ more
          ]
        ≡ emit_all has_logger has_callback base (named_output (text name) b ++ rest)
  unfolding emit
  text_entry_lem l c base n a none e more rest h = rw e h
  text_entry_lem l c base n a (some v) e more rest h =
      rw (e, h) (append_assoc (if l then log_scalar (base ++ n) v ∷ [] else []) _ _)

  emit_entries_lem :
      (has_logger has_callback : Bool) (base : Text) (entries : List (LuaValue × LuaValue))
      → emit_entries fp has_logger has_callback base entries
        ≡ emit_all has_logger has_callback base (table_outputs entries)
  unfolding emit_entries entry_output emit
  emit_entries_lem l c base [] = refl
  emit_entries_lem l c base ((float x, value) ∷ rest) = emit_entries_lem l c base rest
  emit_entries_lem l c base ((integer n, value) ∷ rest) = emit_entries_lem l c base rest
  emit_entries_lem l c base ((other, value) ∷ rest) = emit_entries_lem l c base rest
  emit_entries_lem l c base ((text n, value) ∷ rest) =
      text_entry_lem l c base n (to_double fp value) (number_of value) (to_double_lem value) _ _
        (emit_entries_lem l c base rest)

  emit_returned_lem :
      (has_logger has_callback : Bool) (base : Text) (r : Returned)
      → emit_returned fp has_logger has_callback base r
        ≡ emit_all has_logger has_callback base (outputs r)
  unfolding emit_returned emit_single
  emit_returned_lem l c base failed = refl
  emit_returned_lem l c base (table entries) = emit_entries_lem l c base entries
  emit_returned_lem l c base (single value) =
      rw (to_double_lem value) (elim (Option-cases (number_of value)) [
        | inl e ↦ rw e refl
        | inr (v, e) ↦ rw e (
            ap (λ r. (if l then log_scalar (base ++ codes "output") v ∷ [] else []) ++ r)
              (sym (append-nil (if c then output_cb (codes "output") v ∷ [] else []))))
      ])

  logged-emit_all :
      (has_logger has_callback : Bool) (base : Text) (outs : List (Text × Double))
      → (logged (emit_all has_logger has_callback base outs)
          ≡ (if has_logger then under base outs else []))
        × (called (emit_all has_logger has_callback base outs)
            ≡ (if has_callback then outs else []))
  logged-emit_all true true base [] = (refl, refl)
  logged-emit_all true false base [] = (refl, refl)
  logged-emit_all false true base [] = (refl, refl)
  logged-emit_all false false base [] = (refl, refl)
  logged-emit_all true true base ((n, v) ∷ os) =
      let r = logged-emit_all true true base os in
      (ap (λ l. (base ++ n, v) ∷ l) r.0, ap (λ l. (n, v) ∷ l) r.1)
  logged-emit_all true false base ((n, v) ∷ os) =
      let r = logged-emit_all true false base os in (ap (λ l. (base ++ n, v) ∷ l) r.0, r.1)
  logged-emit_all false true base ((n, v) ∷ os) =
      let r = logged-emit_all false true base os in (r.0, ap (λ l. (n, v) ∷ l) r.1)
  logged-emit_all false false base ((n, v) ∷ os) = logged-emit_all false false base os

  module _ {S : Type 0} (run : Script S) where
    -- The frames of a run, with the calls that come of each.
    abbrev pub on_frames : ModelEngine S → List CanFrame → ModelEngine S × List Effect
    on_frames e [] = (e, [])
    on_frames e (f ∷ fs) =
        let r = on_frame fp run e f in let more = on_frames r.0 fs in (more.0, r.1 ++ more.1)

    -- For every frame, the logger gets the outputs of the script under the script's name and the callback gets
    -- the same ones in the same order, each as far as it is set: the numbers of a table under their texts, or one
    -- number as `output`; nothing where run() fails.
    pub on_frame-outputs :
        (e : ModelEngine S) (f : CanFrame)
        → let outs = outputs (run e.lua (get_signal (update e.store f))).1 in
          (logged (on_frame fp run e f).1
            ≡ (if e.logger then under (base_of fp e.script_name) outs else []))
          × (called (on_frame fp run e f).1 ≡ (if e.callback then outs else []))
    unfolding on_frame
    on_frame-outputs e f =
        let r = (run e.lua (get_signal (update e.store f))).1 in
        rw (emit_returned_lem e.logger e.callback (base_of fp e.script_name) r)
          (logged-emit_all e.logger e.callback (base_of fp e.script_name) (outputs r))

  -- A script that also keeps what get_signal gave it for a signal.
  abbrev pub asking : {S : Type 0} → Text → Text → Text → Script S → Script (S × Double)
  asking i m s run state get_sig = let r = run state.0 get_sig in ((r.0, get_sig i m s), r.1)

  module _ {S : Type 0} (i m s : Text) (run : Script S) where
    asked-on_frames :
        (e : ModelEngine (S × Double)) (fs : List CanFrame) (f : CanFrame)
        → (on_frames (asking i m s run) e (fs ++ (f ∷ []))).0.lua.1
          ≡ value_or_0 (get (updates e.store (fs ++ (f ∷ []))) i m s)
    unfolding on_frame get_signal
    asked-on_frames e [] f = refl
    asked-on_frames e (g ∷ gs) f = asked-on_frames (on_frame fp (asking i m s run) e g).0 gs f

    -- Whatever a script does, also where it fails: what run() is given for a signal it asks for, when the last of
    -- some frames has come, is the value that the last one of these frames with this interface and message gave
    -- the signal, this frame included, else what the store had before, else 0; if no interface and no message has
    -- a slash in its name.
    pub get_signal-on_frames :
        (e : ModelEngine (S × Double)) (fs : List CanFrame) (f : CanFrame)
        → has_slash i ≡ false
        → has_slash m ≡ false
        → all is_named (fs ++ (f ∷ [])) ≡ true
        → (on_frames (asking i m s run) e (fs ++ (f ∷ []))).0.lua.1
          ≡ value_or_0 (or_else (latest i m s (fs ++ (f ∷ []))) (get e.store i m s))
    get_signal-on_frames e fs f hi hm h =
        asked-on_frames e fs f ∙ ap value_or_0 (get-updates e.store (fs ++ (f ∷ [])) i m s hi hm h)
