-- ===== src/Tui/Handle/Dialogue.antt =====
-- The dialogue that sets up a periodic or a sin action, and its numbers: src/gui/TuiDataFrameSet.cpp,
-- lines 83-148 and 181-409.
use caneo.Common.{
  if_all, ◌≡◌, refl, inl, inr, Bool, true, false, ◌&&◌, List, [], ◌∷◌, ◌++◌, arith, ◌==◌,
  Option-cases, all,
}
use caneo.Common.Int.{ℤ, pos, ltb_ℤ}
use caneo.Common.OrderedMap.{nat_key, text_key, pair_key}
use caneo.Common.Ieee.{Double, Ieee}
use caneo.Tui.{
  Tui, Handled, Event, enter, arrow_right, escape, PeriodicStep, no_step, period_step, type_select,
  sin_amplitude_step, sin_period_step, sin_offset_step, sin_ready, Post, periodic_action,
  sin_action,
}
use caneo.Tui.Create.{create_single_action, create_periodic_action, create_sin_action}
use caneo.Tui.Edit.{actions_edit, send_edit, trace_search}
use caneo.Tui.Periodic.{
  number_or, sin_period_of, periodic, reset_periodic, at_step, at_period, at_type_select,
  at_amplitude, at_sin_period, at_offset, at_ready, confirm_sin,
}
use caneo.Tui.Tabs.{action_list}

abbrev pub is_positive : ℤ → Bool
is_positive = ltb_ℤ (pos 0)

-- The periods of an action that is asked for are above zero.
abbrev pub is_paced : Post → Bool
is_paced (periodic_action iface id name bytes period) = is_positive period
is_paced (sin_action iface id name interval mi si amplitude sin_period offset) =
    is_positive interval && is_positive sin_period
is_paced _ = true

-- The steps behind the entry of the interval.
abbrev pub is_set_up : PeriodicStep → Bool
is_set_up no_step = false
is_set_up period_step = false
is_set_up _ = true

pub record IsPaced (t : Tui) : Type 0 where
  pub interval : is_set_up t.periodic_step ≡ true → is_positive t.periodic_interval_ms ≡ true
  pub posted : all is_paced t.posts ≡ true

pub all-snoc :
    (l : List Post) (p : Post) → all is_paced (l ++ (p ∷ [])) ≡ (all is_paced l && is_paced p)
all-snoc [] p = ground arith
all-snoc (x ∷ l) p = ground (arith, all-snoc l p)

module _ (fp : Ieee) (t : Tui) (v : IsPaced t) where
  pub actions_edit-IsPaced : (e : Event) → IsPaced (actions_edit fp t e).0
  unfolding actions_edit
  actions_edit-IsPaced enter = grind (arith, all-snoc)
  actions_edit-IsPaced _ = grind (arith, all-snoc)

  pub send_edit-IsPaced : (e : Event) → IsPaced (send_edit fp t e).0
  unfolding send_edit
  send_edit-IsPaced enter = ground arith
  send_edit-IsPaced _ = ground arith

  pub trace_search-IsPaced : (e : Event) → IsPaced (trace_search t e).0
  unfolding trace_search
  trace_search-IsPaced enter = ground arith
  trace_search-IsPaced _ = ground arith

  create_single_action-IsPaced : IsPaced (create_single_action fp t)
  unfolding create_single_action
  create_single_action-IsPaced = grind (arith, all-snoc)

  create_periodic_action-IsPaced :
      (ms : ℤ) → is_positive ms ≡ true → IsPaced (create_periodic_action fp t ms)
  unfolding create_periodic_action
  create_periodic_action-IsPaced ms h = grind (arith, all-snoc)

  create_sin_action-IsPaced :
      (amp : Double) (sp : ℤ) (off : Double)
      → is_positive t.periodic_interval_ms ≡ true
      → is_positive sp ≡ true
      → IsPaced (create_sin_action t amp sp off)
  unfolding create_sin_action
  create_sin_action-IsPaced amp sp off h k = grind (arith, all-snoc)

  pub action_list-IsPaced : (e : Event) → IsPaced (action_list t e).0
  unfolding action_list
  action_list-IsPaced enter = grind (arith, all-snoc)
  action_list-IsPaced _ = grind (arith, all-snoc)

  IsPaced-reset : (u : Tui) → IsPaced u → IsPaced (reset_periodic u)
  unfolding reset_periodic
  IsPaced-reset u w = record { interval = λ h. absurd (cc h); posted = w.posted }

  at_type_select-IsPaced :
      (e : Event) → t.periodic_step ≡ type_select → IsPaced (at_type_select fp t e).0
  unfolding at_type_select
  at_type_select-IsPaced enter h =
      if_all (λ (r : Handled). IsPaced r.0) (t.periodic_type_cursor == 0)
        (λ _.
          IsPaced-reset _
            (create_periodic_action-IsPaced t.periodic_interval_ms (v.interval (rw h refl))))
        (λ _. ground arith)
  at_type_select-IsPaced _ h = ground arith

  confirm_sin-IsPaced : t.periodic_step ≡ sin_ready → IsPaced (confirm_sin fp t)
  unfolding confirm_sin
  confirm_sin-IsPaced h = elim (Option-cases (number_or fp 0 t.sin_amplitude_buf)) [
    | inl n ↦ rw (n, confirm_sin) v
    | inr (amp, n) ↦ elim (Option-cases (sin_period_of t)) [
      | inl m ↦ rw (n, m, confirm_sin) v
      | inr (sp, m) ↦ elim (Option-cases (number_or fp 0 t.sin_offset_buf)) [
        | inl k ↦ rw (n, m, k, confirm_sin) v
        | inr (off, k) ↦
            rw (n, m, k, confirm_sin)
              (if_all IsPaced (ltb_ℤ (pos 0) sp)
                (λ q. create_sin_action-IsPaced amp sp off (v.interval (rw h refl)) q) (λ _. v))
      ]
    ]
  ]

  at_ready-IsPaced : (e : Event) → t.periodic_step ≡ sin_ready → IsPaced (at_ready fp t e).0
  unfolding at_ready
  at_ready-IsPaced enter h = IsPaced-reset _ (confirm_sin-IsPaced h)
  at_ready-IsPaced arrow_right h = IsPaced-reset _ (confirm_sin-IsPaced h)
  at_ready-IsPaced _ h = ground arith

  at_period-IsPaced : (e : Event) → t.periodic_step ≡ period_step → IsPaced (at_period t e).0
  unfolding at_period
  at_period-IsPaced enter h = ground arith
  at_period-IsPaced _ h = ground arith

  at_amplitude-IsPaced :
      (e : Event) → t.periodic_step ≡ sin_amplitude_step → IsPaced (at_amplitude t e).0
  unfolding at_amplitude
  at_amplitude-IsPaced enter h = ground arith
  at_amplitude-IsPaced _ h = ground arith

  at_sin_period-IsPaced :
      (e : Event) → t.periodic_step ≡ sin_period_step → IsPaced (at_sin_period t e).0
  unfolding at_sin_period
  at_sin_period-IsPaced enter h = ground arith
  at_sin_period-IsPaced _ h = ground arith

  at_offset-IsPaced : (e : Event) → t.periodic_step ≡ sin_offset_step → IsPaced (at_offset t e).0
  unfolding at_offset
  at_offset-IsPaced enter h = ground arith
  at_offset-IsPaced _ h = ground arith

  at_step-IsPaced :
      (s : PeriodicStep) (e : Event) → t.periodic_step ≡ s → IsPaced (at_step fp t s e).0
  unfolding at_step
  at_step-IsPaced no_step e h = v
  at_step-IsPaced period_step e h = at_period-IsPaced e h
  at_step-IsPaced type_select e h = at_type_select-IsPaced e h
  at_step-IsPaced sin_amplitude_step e h = at_amplitude-IsPaced e h
  at_step-IsPaced sin_period_step e h = at_sin_period-IsPaced e h
  at_step-IsPaced sin_offset_step e h = at_offset-IsPaced e h
  at_step-IsPaced sin_ready e h = at_ready-IsPaced e h

  pub periodic-IsPaced : (e : Event) → IsPaced (periodic fp t e).0
  unfolding periodic
  periodic-IsPaced escape = IsPaced-reset t v
  periodic-IsPaced e = at_step-IsPaced t.periodic_step e refl
