-- ===== src/Tui/Handle/Invariant.antt =====
-- Where the terminal interface can be: src/gui/TuiDataFrameSet.cpp.
use caneo.Common.{
  if_all, ℕ, ◌+◌, ◌≤◌, ◌<◌, ◌≡◌, ◌≢◌, ◌⊎◌, inl, inr, true, false, not, ◌&&◌, Option, none, some,
  arith, ◌==◌, if◌then◌else◌, Option-cases,
}
use caneo.Common.OrderedMap.{nat_key, text_key, pair_key}
use caneo.Common.Ieee.{Ieee}
use caneo.Playback.{Playback}
use caneo.Tui.{
  Tui, Handled, Event, enter, arrow_left, arrow_right, escape, character, playback_tab_idx, is_some,
}
use caneo.Tui.Levels.{signal_list, playback_filter, action_signals, message_list, is_key}
use caneo.Tui.Tabs.{shortcut, playback_list, action_list, sub_tabs, main_tabs}
use native.Mathlib.Nat.{mod-lt}
use caneo.Tui.Handle.{handle, navigate, no_mode, level_one, level_two, playback_here, is_no_step}
use caneo.Tui.Handle.Capture.{
  Place, place, place-actions_edit, place-send_edit, place-trace_search, place-periodic,
}

-- The playback tab comes behind the model tab, if there is one.
abbrev pub playback_tab : Place → ℕ
playback_tab p = if p.model then 4 else 3

-- The level is one of four, the tab exists, only the Send tab has a signal list, and only the Send,
-- the Actions and the playback tab have a second level.
pub record IsPlaced (p : Place) : Type 0 where
  pub bounded : p.level ≤ 3
  pub known : p.tab < 3 + (if p.model then 1 else 0) + (if p.playing then 1 else 0)
  pub third : p.level ≡ 3 → p.tab ≡ 1
  pub second :
      p.level ≡ 2 → (p.tab ≡ 1) ⊎ ((p.tab ≡ 2) ⊎ ((p.tab ≡ playback_tab p) × (p.playing ≡ true)))

abbrev pub AllOption {ℓ κ} : {A : Type ℓ} → (A → Type κ) → Option A → Type κ
AllOption P none = Unit
AllOption P (some a) = P a

module _ (fp : Ieee) (t : Tui) (v : IsPlaced (place t)) where
  signal_list-IsPlaced : (e : Event) → t.nav_level ≡ 3 → IsPlaced (place (signal_list fp t e).0)
  unfolding signal_list
  signal_list-IsPlaced enter h = ground arith
  signal_list-IsPlaced _ h = ground arith

  message_list-IsPlaced :
      (e : Event) → t.nav_level ≡ 2 → t.main_tab ≡ 1 → IsPlaced (place (message_list t e).0)
  unfolding message_list
  message_list-IsPlaced enter h k = ground arith
  message_list-IsPlaced _ h k = ground arith

  action_signals-IsPlaced : (e : Event) → IsPlaced (place (action_signals fp t e).0)
  unfolding action_signals
  action_signals-IsPlaced enter = ground arith
  action_signals-IsPlaced _ = ground arith

  playback_filter-IsPlaced :
      (c : Playback) (e : Event) → t.playback ≡ some c → IsPlaced (place (playback_filter t c e).0)
  unfolding playback_filter
  playback_filter-IsPlaced c enter h = ground arith
  playback_filter-IsPlaced c _ h = ground arith

  playback_list-IsPlaced :
      (c : Playback) (e : Event)
      → t.playback ≡ some c
      → t.main_tab ≡ playback_tab_idx t
      → t.nav_level ≡ 1
      → IsPlaced (place (playback_list t c e).0)
  unfolding playback_list playback_tab_idx
  playback_list-IsPlaced c enter h k l = ground arith
  playback_list-IsPlaced c _ h k l = ground arith

  action_list-IsPlaced :
      (e : Event) → t.main_tab ≡ 2 → t.nav_level ≡ 1 → IsPlaced (place (action_list t e).0)
  unfolding action_list
  action_list-IsPlaced enter h k = ground arith
  action_list-IsPlaced _ h k = ground arith

  sub_tabs-IsPlaced : (e : Event) → t.nav_level ≡ 1 → IsPlaced (place (sub_tabs t e).0)
  unfolding sub_tabs
  sub_tabs-IsPlaced enter k = ground arith
  sub_tabs-IsPlaced _ k = ground arith

  main_tabs-IsPlaced :
      (e : Event)
      → t.nav_level ≢ 1
      → t.nav_level ≢ 2
      → t.nav_level ≢ 3
      → IsPlaced (place (main_tabs t e).0)
  unfolding main_tabs
  main_tabs-IsPlaced enter h k l = ground arith
  main_tabs-IsPlaced arrow_right h k l = grind (arith, mod-lt)
  main_tabs-IsPlaced arrow_left h k l = grind (arith, mod-lt)
  main_tabs-IsPlaced _ h k l = ground arith

  shortcut-IsPlaced : (e : Event) → AllOption (λ t'. IsPlaced (place t')) (shortcut t e)
  unfolding shortcut playback_tab_idx
  shortcut-IsPlaced escape = ground arith
  shortcut-IsPlaced (character s) =
      let P : Option Tui → Type 0 = AllOption (λ t'. IsPlaced (place t')) in
      if_all P (is_key s b'q') (λ _. ground arith)
        λ _.
          if_all P (is_key s b't') (λ _. ground arith)
            λ _.
              if_all P (is_key s b's') (λ _. ground arith)
                λ _.
                  if_all P (is_key s b'a') (λ _. ground arith)
                    λ _.
                      if_all P (is_key s b'm' && t.model_tab_enabled) (λ h. ground arith)
                        λ _.
                          if_all P (is_key s b'p' && is_some t.playback) (λ h. ground arith)
                            λ _.
                              if_all P (is_key s b'f' && t.main_tab == 0) (λ _. ground arith)
                                (λ _. tt)
  shortcut-IsPlaced _ = tt

  playback_here-some :
      (c : Playback)
      → playback_here t ≡ some c
      → (t.playback ≡ some c) × (t.main_tab ≡ playback_tab_idx t)
  unfolding playback_here playback_tab_idx
  playback_here-some c e = ground arith

  playback_here-none :
      playback_here t ≡ none → t.main_tab ≡ playback_tab_idx t → is_some t.playback ≡ false
  unfolding playback_here playback_tab_idx
  playback_here-none e k = ground arith

  level_two-IsPlaced : (e : Event) → t.nav_level ≡ 2 → IsPlaced (place (level_two fp t e).0)
  unfolding level_two playback_tab_idx
  level_two-IsPlaced e l = elim (Option-cases (playback_here t)) [
    | inr (c, h) ↦ rw (h, level_two) (playback_filter-IsPlaced c e (playback_here-some c h).0)
    | inl h ↦
        rw (h, level_two)
          (if_all (λ (r : Handled). IsPlaced (place r.0)) (t.main_tab == 2)
            (λ _. action_signals-IsPlaced e)
            (λ k. message_list-IsPlaced e l (ground (arith, v.second l, playback_here-none h))))
  ]

  level_one-IsPlaced : (e : Event) → t.nav_level ≡ 1 → IsPlaced (place (level_one t e).0)
  unfolding level_one
  level_one-IsPlaced e l = elim (Option-cases (playback_here t)) [
    | inr (c, h) ↦
        let r = playback_here-some c h in rw (h, level_one) (playback_list-IsPlaced c e r.0 r.1 l)
    | inl h ↦
        rw (h, level_one)
          (if_all (λ (r : Handled). IsPlaced (place r.0)) (t.main_tab == 2)
            (λ k. action_list-IsPlaced e (ground (arith, k)) l) (λ _. sub_tabs-IsPlaced e l))
  ]

  navigate-IsPlaced : (e : Event) → IsPlaced (place (navigate fp t e).0)
  unfolding navigate
  navigate-IsPlaced e =
      let P : Handled → Type 0 = λ r. IsPlaced (place r.0) in
      if_all P (t.nav_level == 3) (λ k. signal_list-IsPlaced e (ground (arith, k)))
        λ n3.
          if_all P (t.nav_level == 2) (λ k. level_two-IsPlaced e (ground (arith, k)))
            λ n2.
              if_all P (t.nav_level == 1) (λ k. level_one-IsPlaced e (ground (arith, k)))
                λ n1.
                  main_tabs-IsPlaced e (ground (arith, n1)) (ground (arith, n2))
                    (ground (arith, n3))

  no_mode-IsPlaced : (e : Event) → IsPlaced (place (no_mode fp t e).0)
  unfolding no_mode
  no_mode-IsPlaced e = elim (Option-cases (shortcut t e)) [
    | inl h ↦ rw (h, no_mode) (navigate-IsPlaced e)
    | inr (t', h) ↦ rw (h, no_mode) (let q = shortcut-IsPlaced e in rw h at q)
  ]

-- Every event leaves the interface in a tab that exists, at a level that this tab has.
pub handle-IsPlaced :
    (fp : Ieee) (t : Tui) (e : Event) → IsPlaced (place t) → IsPlaced (place (handle fp t e).0)
unfolding handle
handle-IsPlaced fp t e v =
    let P : Handled → Type 0 = λ r. IsPlaced (place r.0) in
    if_all P t.actions_editing (λ _. rw (place-actions_edit fp t e) v)
      λ _.
        if_all P (not (is_no_step t.periodic_step)) (λ _. rw (place-periodic fp t e) v)
          λ _.
            if_all P t.send_editing (λ _. rw (place-send_edit fp t e) v)
              λ _.
                if_all P t.trace_searching (λ _. rw (place-trace_search fp t e) v)
                  λ _. no_mode-IsPlaced fp t v e
