-- ===== src/Screen/Found.antt =====
-- What the view of a search shows: src/gui/TuiDataFrameSet.cpp, lines 866-905.
use caneo.Common.Ieee.{Ieee}
use caneo.Frame.{CanFrame, DataFrameSet}
use caneo.Screen.{
  dim, inverted, focus, frame, vscroll_indicator, flex, Element, text, separator, vbox, ◌|>◌, lit,
  indexed, or_row,
}
use caneo.Screen.Search.{Matching, split_entries_lem}
use caneo.Screen.Trace.{
  split_entries, make_frame_elem, frame_row, make_scrollable_rows, search_bar, interface_tabs,
  search_view,
}
use caneo.Tui.{Tui}
use caneo.Common.{
  ℕ, ◌+◌, ◌≡◌, refl, true, false, ◌&&◌, List, [], ◌∷◌, ◌++◌, leb, ◌==◌, if◌then◌else◌, length, All,
}
use mathlib.Core.List.{Perm}

module _ (fp : Ieee) (t : Tui) (set : DataFrameSet) where
  -- How a frame is drawn in a row: the row at the cursor, if the keys are on the rows, stands out.
  abbrev pub drawn : ℕ → ℕ × CanFrame → Element
  drawn row (id, f) =
      if row == t.trace_cursor && leb 1 t.nav_level
      then make_frame_elem fp set id f |> inverted |> focus
      else make_frame_elem fp set id f

  -- The rows are those of the frames, one for each, counted from a number on.
  abbrev pub AreRows : ℕ → List (ℕ × CanFrame) → List Element → Type 0
  AreRows row [] [] = Unit
  AreRows row [] (r ∷ rs) = ⊥
  AreRows row (e ∷ es) [] = ⊥
  AreRows row (e ∷ es) (r ∷ rs) = (r ≡ drawn row e) × AreRows (row + 1) es rs

  indexed-AreRows :
      (row : ℕ) (es : List (ℕ × CanFrame)) → AreRows row es (indexed (frame_row fp t set) row es)
  unfolding indexed frame_row
  indexed-AreRows row [] = tt
  indexed-AreRows row ((id, f) ∷ es) = (refl, indexed-AreRows (row + 1) es)

  -- The view of a search with two lists of rows.
  abbrev pub two_lists : List Element → List Element → Element
  two_lists upper lower = vbox (
      interface_tabs t
      ∷ separator
      ∷ search_bar t
      ∷ separator
      ∷ (vbox (or_row upper (text (lit "(keine Treffer)") |> dim))
          |> vscroll_indicator
          |> frame
          |> flex)
      ∷ separator
      ∷ (vbox (or_row lower (text (lit "(keine weiteren Frames)") |> dim))
          |> vscroll_indicator
          |> frame)
      ∷ [])

  -- The view of a search draws every frame of the set in exactly one row: above, under the search bar, those that
  -- match the query, below the others, with the rows counted through both lists; a list without frames has its
  -- notice instead.
  pub search_view_lem :
      (matched others : List (ℕ × CanFrame)) × (upper lower : List Element) × (search_view fp t set
        ≡ two_lists upper lower)
      × AreRows 0 matched upper
      × AreRows (length matched) others lower
      × All (Matching true t.trace_search_buf) matched
      × All (Matching false t.trace_search_buf) others
      × Perm (matched ++ others) set.frames
  unfolding search_view make_scrollable_rows
  search_view_lem =
      let s = split_entries t.trace_search_buf set.frames in
      let r = split_entries_lem t.trace_search_buf set.frames in
      (
        s.0,
        s.1,
        indexed (frame_row fp t set) 0 s.0,
        indexed (frame_row fp t set) (length s.0) s.1,
        refl,
        indexed-AreRows 0 s.0,
        indexed-AreRows (length s.0) s.1,
        r.0,
        r.1.0,
        r.1.1,
      )
