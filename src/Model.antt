-- ===== src/Model.antt =====
-- src/model/ModelEngine: a Lua script that runs for every frame. Lua is a parameter: what a script's run() does
-- with its own state and the signals that it may ask for.
pub mod Laws
mod Tests
use caneo.Common.{
  ◌+◌, ◌/◌, ◌⊎◌, inl, inr, Bool, true, false, Option, none, some, List, [], ◌∷◌, ◌++◌,
  if◌then◌else◌,
}
use caneo.Common.Text.{Text, codes}
use caneo.Common.Int.{ℤ}
use caneo.Common.Ieee.{Double, Ieee}
use caneo.Frame.{CanFrame}
use caneo.Store.{SignalStore, update, get}

-- A value of Lua, as far as the engine looks at it.
pub data LuaValue : Type 0 where
  float : Double → LuaValue
  integer : ℤ → LuaValue
  text : Text → LuaValue
  other : LuaValue

-- What run() gives: an error, a table with its entries in the order of for_each, or another value.
pub data Returned : Type 0 where
  failed : Returned
  table : List (LuaValue × LuaValue) → Returned
  single : LuaValue → Returned

-- run() of a script with the state S, given get_signal.
abbrev pub Script : Type 0 → Type 0
Script S = S → (Text → Text → Text → Double) → S × Returned

-- The calls of the logger and of the output callback.
pub data Effect : Type 0 where
  log_scalar output_cb : Text → Double → Effect

-- `logger` and `callback` are whether there is one.
pub record ModelEngine (S : Type 0) : Type 0 where
  pub lua : S
  pub store : SignalStore
  pub script_name : Text
  pub logger : Bool
  pub callback : Bool

-- A script file: it cannot be loaded or fails at once, it defines no function run, or it runs from a state on.
pub data Loaded (S : Type 0) : Type 0 where
  load_failed no_run : Loaded S
  script : S → Loaded S

pub data Error : Type 0 where
  script_error run_missing : Error

abbrev pub value_or_0 : Option Double → Double
value_or_0 none = 0
value_or_0 (some x) = x

-- The function that scripts may call.
unfoldable pub get_signal : SignalStore → Text → Text → Text → Double
unfolding get
get_signal store iface msg signal = value_or_0 (get store iface msg signal)

-- The path of the script names it; a new engine has no callback.
unfoldable pub new_engine :
    {S : Type 0} → SignalStore → Bool → Text → Loaded S → ModelEngine S ⊎ Error
new_engine store has_logger stem load_failed = inr script_error
new_engine store has_logger stem no_run = inr run_missing
new_engine store has_logger stem (script lua) =
    inl (record {
      lua = lua;
      store = store;
      script_name = stem;
      logger = has_logger;
      callback = false;
    })

pub set_output_callback : {S : Type 0} → ModelEngine S → ModelEngine S
set_output_callback e = record e { callback = true }

module _ (fp : Ieee) where
  pub to_double : LuaValue → Option Double
  to_double (float x) = some x
  to_double (integer n) = some (fp.of_long n)
  to_double (text t) = none
  to_double other = none

  -- One turn of for_each over a table.
  pub entry_output : LuaValue → LuaValue → Option (Text × Double)
  unfolding to_double
  entry_output (text name) value = elim (to_double value) [ none ↦ none | some v ↦ some (name, v) ]
  entry_output _ value = none

  abbrev pub base_of : Text → Text
  base_of script_name = codes "model/" ++ (script_name ++ (b'/' ∷ []))

  -- What is done with one output.
  pub emit : Bool → Bool → Text → Text × Double → List Effect
  emit has_logger has_callback base (name, v) =
      (if has_logger then log_scalar (base ++ name) v ∷ [] else [])
      ++ (if has_callback then output_cb name v ∷ [] else [])

  -- for_each over a table, and what is done with a result.
  pub emit_entries : Bool → Bool → Text → List (LuaValue × LuaValue) → List Effect
  unfolding emit entry_output
  emit_entries has_logger has_callback base [] = []
  emit_entries has_logger has_callback base ((key, value) ∷ rest) =
      let more = emit_entries has_logger has_callback base rest in
      elim (entry_output key value) [
        | none ↦ more
        | some o ↦ emit has_logger has_callback base o ++ more
      ]

  pub emit_single : Bool → Bool → Text → Option Double → List Effect
  emit_single has_logger has_callback base none = []
  emit_single has_logger has_callback base (some v) =
      (if has_logger then log_scalar (base ++ codes "output") v ∷ [] else [])
      ++ (if has_callback then output_cb (codes "output") v ∷ [] else [])

  pub emit_returned : Bool → Bool → Text → Returned → List Effect
  unfolding emit_entries emit_single to_double
  emit_returned has_logger has_callback base failed = []
  emit_returned has_logger has_callback base (table entries) =
      emit_entries has_logger has_callback base entries
  emit_returned has_logger has_callback base (single value) =
      emit_single has_logger has_callback base (to_double value)

  module _ {S : Type 0} (run : Script S) where
    unfoldable pub on_frame : ModelEngine S → CanFrame → ModelEngine S × List Effect
    unfolding update get_signal emit_returned
    on_frame e frame =
        let store = update e.store frame in
        let r = run e.lua (get_signal store) in
        (
          record e { lua = r.0; store = store },
          emit_returned e.logger e.callback (base_of e.script_name) r.1,
        )
