-- ===== src/Screen/Shown.antt =====
-- Which view the window shows: src/gui/TuiDataFrameSet.cpp, lines 1335-1351.
use caneo.Common.Ieee.{Ieee}
use caneo.Tui.{Tui, Event, is_some}
use caneo.Tui.Handle.{handle}
use caneo.Tui.Handle.Capture.{place}
use caneo.Tui.Handle.Invariant.{IsPlaced, handle-IsPlaced}
use caneo.Screen.{Element, lit}
use caneo.Screen.Trace.{render_trace}
use caneo.Screen.Sending.{render_send}
use caneo.Screen.Actions.{render_actions}
use caneo.Screen.Replay.{render_playback, render_model}
use caneo.Screen.Views.{tab_labels, main_content}
use caneo.Common.{
  ℕ, zero, suc, ◌+◌, ◌<◌, ◌≡◌, refl, Bool, true, false, some, [], ◌∷◌, ◌++◌, arith, ◌==◌,
  if◌then◌else◌, get_elem?,
}
use caneo.Common.Text.{Text}
use caneo.Common.Int.{ℤ}
use caneo.Common.OrderedMap.{nat_key, text_key, pair_key}

module _ (fp : Ieee) (t : Tui) (now : ℕ → ℤ) where
  -- The view that belongs to the label of a tab.
  pub data LabelView : Text → Element → Type 0 where
    trace_view : LabelView (lit "Trace") (render_trace fp t)
    send_view : LabelView (lit "Send") (render_send fp t)
    actions_view : LabelView (lit "Actions") (render_actions fp t now)
    model_view : LabelView (lit "Model") (render_model fp t)
    playback_view : LabelView (lit "Playback") (render_playback t)

  -- There is a highlighted tab, and the view below is the one that belongs to its label.
  abbrev pub ShowsTab : Type 0
  ShowsTab =
      (label : Text) × ((get_elem? (tab_labels t) t.main_tab ≡ some label)
        × LabelView label (main_content fp t now))

  -- All cases of the number of the tab and of the two tabs that may be missing.
  shown_view :
      (k : ℕ) (m p : Bool)
      → k < 3 + (if m then 1 else 0) + (if p then 1 else 0)
      → (label : Text) × ((get_elem?
              ((lit "Trace" ∷ lit "Send" ∷ lit "Actions" ∷ [])
                ++ (if m then lit "Model" ∷ [] else [])
                ++ (if p then lit "Playback" ∷ [] else []))
              k
            ≡ some label)
          × LabelView label (
              if k == 0
              then render_trace fp t
              else if k == 1
              then render_send fp t
              else if k == 2
              then render_actions fp t now
              else if k == 3
              then if m then render_model fp t else render_playback t
              else render_playback t))
  shown_view zero m p h = (lit "Trace", (refl, trace_view))
  shown_view (suc zero) m p h = (lit "Send", (refl, send_view))
  shown_view (suc (suc zero)) m p h = (lit "Actions", (refl, actions_view))
  shown_view (suc (suc (suc zero))) true p h = (lit "Model", (refl, model_view))
  shown_view (suc (suc (suc zero))) false true h = (lit "Playback", (refl, playback_view))
  shown_view (suc (suc (suc zero))) false false h = absurd (omega (arith, h))
  shown_view (suc (suc (suc (suc zero)))) true true h = (lit "Playback", (refl, playback_view))
  shown_view (suc (suc (suc (suc zero)))) true false h = absurd (omega (arith, h))
  shown_view (suc (suc (suc (suc zero)))) false p h = absurd (ground (arith, h))
  shown_view (suc (suc (suc (suc (suc k))))) m p h = absurd (ground (arith, h))

  IsPlaced-ShowsTab : IsPlaced (place t) → ShowsTab
  unfolding tab_labels main_content
  IsPlaced-ShowsTab v = shown_view t.main_tab t.model_tab_enabled (is_some t.playback) v.known

-- After any event handled in a state that is in one of its places, the highlighted label of the main
-- tab bar exists and the window shows the view of this label, whichever of the model and the playback
-- tab are there.
pub handle_shows_tab :
    (fp : Ieee) (t : Tui) (now : ℕ → ℤ) (e : Event)
    → IsPlaced (place t)
    → ShowsTab fp (handle fp t e).0 now
handle_shows_tab fp t now e v =
    IsPlaced-ShowsTab fp (handle fp t e).0 now (handle-IsPlaced fp t e v)
