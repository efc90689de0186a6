-- ===== src/Tui/Periodic.antt =====
-- The state machine that creates periodic and sin actions: src/gui/TuiDataFrameSet.cpp, lines 246-350.
use caneo.Common.{
  ◌-◌, Bool, true, false, not, ◌&&◌, Option, none, some, [], ◌∷◌, ◌++◌, ◌==◌, if◌then◌else◌, any,
  is_empty,
}
use caneo.Common.Text.{Text}
use caneo.Common.Int.{ℤ, pos, ltb_ℤ}
use caneo.Common.OrderedMap.{nat_key, text_key, pair_key}
use caneo.Common.Ieee.{Double, Ieee}
use caneo.Numerals.{is_digit, stol}
use caneo.Tui.{
  Tui, Handled, Event, enter, arrow_left, arrow_right, arrow_up, arrow_down, escape, backspace,
  character, PeriodicStep, no_step, period_step, type_select, sin_amplitude_step, sin_period_step,
  sin_offset_step, sin_ready, pop_back, first_char,
}
use caneo.Tui.Create.{create_periodic_action, create_sin_action}

unfoldable pub reset_periodic : Tui → Tui
reset_periodic t = record t {
  periodic_step = no_step;
  periodic_interval_buf = [];
  periodic_interval_ms = pos 0;
  periodic_type_cursor = 0;
  sin_amplitude_buf = [];
  sin_period_buf = [];
  sin_offset_buf = [];
}

-- The interval that was typed goes on to the choice of the type if it is above zero.
accept_interval : Tui → ℤ → Tui
accept_interval t ms =
    if ltb_ℤ (pos 0) ms
    then record t { periodic_interval_ms = ms; periodic_step = type_select }
    else record t { periodic_interval_ms = ms }

confirm_interval : Tui → Tui
unfolding accept_interval stol
confirm_interval t =
    if is_empty t.periodic_interval_buf
    then t
    else elim (stol t.periodic_interval_buf) [ none ↦ t | some ms ↦ accept_interval t ms ]

unfoldable pub at_period : Tui → Event → Handled
unfolding confirm_interval pop_back
at_period t enter = (confirm_interval t, true)
at_period t arrow_right = (confirm_interval t, true)
at_period t backspace =
    (record t { periodic_interval_buf = pop_back t.periodic_interval_buf }, true)
at_period t (character s) =
    if is_digit (first_char s)
    then (record t { periodic_interval_buf = t.periodic_interval_buf ++ (first_char s ∷ []) }, true)
    else (t, false)
at_period t _ = (t, false)

flip_type : Tui → Tui
flip_type t = record t { periodic_type_cursor = 1 - t.periodic_type_cursor }

unfoldable pub at_type_select : Ieee → Tui → Event → Handled
unfolding flip_type create_periodic_action reset_periodic
at_type_select fp t arrow_left = (flip_type t, true)
at_type_select fp t arrow_right = (flip_type t, true)
at_type_select fp t enter =
    if t.periodic_type_cursor == 0
    then (reset_periodic (create_periodic_action fp t t.periodic_interval_ms), true)
    else (record t { periodic_step = sin_amplitude_step }, true)
at_type_select fp t arrow_up = (record t { periodic_step = period_step }, true)
at_type_select fp t _ = (t, false)

-- `handle_num`: what an event makes of a numeric field, and whether it is consumed.
pub handle_num : Text → Bool → Event → Text × Bool
unfolding pop_back
handle_num buf allow_decimal backspace = (pop_back buf, true)
handle_num buf allow_decimal (character s) =
    let c = first_char s in
    if is_digit c
    then (buf ++ (c ∷ []), true)
    else if allow_decimal && (c == b'.' && not (any (λ d. d == b'.') buf))
    then (buf ++ (c ∷ []), true)
    else if allow_decimal && (c == b'-' && is_empty buf)
    then (buf ++ (c ∷ []), true)
    else (buf, true)
handle_num buf allow_decimal _ = (buf, false)

-- A field of the sin dialogue: forth, back, or an event for the field itself.
unfoldable pub at_amplitude : Tui → Event → Handled
unfolding handle_num
at_amplitude t enter = (record t { periodic_step = sin_period_step }, true)
at_amplitude t arrow_down = (record t { periodic_step = sin_period_step }, true)
at_amplitude t arrow_up = (record t { periodic_step = type_select }, true)
at_amplitude t e =
    let r = handle_num t.sin_amplitude_buf true e in (record t { sin_amplitude_buf = r.0 }, r.1)

unfoldable pub at_sin_period : Tui → Event → Handled
unfolding handle_num
at_sin_period t enter = (record t { periodic_step = sin_offset_step }, true)
at_sin_period t arrow_down = (record t { periodic_step = sin_offset_step }, true)
at_sin_period t arrow_up = (record t { periodic_step = sin_amplitude_step }, true)
at_sin_period t e =
    let r = handle_num t.sin_period_buf false e in (record t { sin_period_buf = r.0 }, r.1)

unfoldable pub at_offset : Tui → Event → Handled
unfolding handle_num
at_offset t enter = (record t { periodic_step = sin_ready }, true)
at_offset t arrow_down = (record t { periodic_step = sin_ready }, true)
at_offset t arrow_up = (record t { periodic_step = sin_period_step }, true)
at_offset t e =
    let r = handle_num t.sin_offset_buf true e in (record t { sin_offset_buf = r.0 }, r.1)

-- A number that may be left empty; nothing where the conversion throws.
abbrev pub number_or : Ieee → Double → Text → Option Double
number_or fp d buf = if is_empty buf then some d else fp.stod buf

abbrev pub sin_period_of : Tui → Option ℤ
unfolding stol
sin_period_of t = if is_empty t.sin_period_buf then some (pos 1000) else stol t.sin_period_buf

-- The dialogue's last step: all three conversions must succeed and the period be above zero.
unfoldable pub confirm_sin : Ieee → Tui → Tui
unfolding create_sin_action stol
confirm_sin fp t = elim (number_or fp 0 t.sin_amplitude_buf) [
  | none ↦ t
  | some amp ↦ elim (sin_period_of t) [
    | none ↦ t
    | some sp ↦ elim (number_or fp 0 t.sin_offset_buf) [
      | none ↦ t
      | some off ↦ if ltb_ℤ (pos 0) sp then create_sin_action t amp sp off else t
    ]
  ]
]

unfoldable pub at_ready : Ieee → Tui → Event → Handled
unfolding confirm_sin reset_periodic
at_ready fp t enter = (reset_periodic (confirm_sin fp t), true)
at_ready fp t arrow_right = (reset_periodic (confirm_sin fp t), true)
at_ready fp t arrow_up = (record t { periodic_step = sin_offset_step }, true)
at_ready fp t _ = (t, false)

unfoldable pub at_step : Ieee → Tui → PeriodicStep → Event → Handled
unfolding at_period at_type_select at_amplitude at_sin_period at_offset at_ready
at_step fp t no_step e = (t, false)
at_step fp t period_step e = at_period t e
at_step fp t type_select e = at_type_select fp t e
at_step fp t sin_amplitude_step e = at_amplitude t e
at_step fp t sin_period_step e = at_sin_period t e
at_step fp t sin_offset_step e = at_offset t e
at_step fp t sin_ready e = at_ready fp t e

-- The machine, entered at any step but `None`: escape abandons the dialogue.
unfoldable pub periodic : Ieee → Tui → Event → Handled
unfolding reset_periodic at_step
periodic fp t escape = (reset_periodic t, true)
periodic fp t e = at_step fp t t.periodic_step e
