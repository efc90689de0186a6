-- ===== src/Screen/Trace.antt =====
-- src/gui/TuiDataFrameSet.cpp, lines 15-33 and 797-913: the search of the trace tab, and its view.
use caneo.Common.Ieee.{Ieee}
use caneo.Numerals.{show, format_id}
use caneo.Frame.{CanFrame, DecodedSignal, DataFrameSet, delta}
use caneo.Screen.{
  bold, dim, inverted, focus, center, frame, vscroll_indicator, flex, Element, text, separator,
  hbox, vbox, ◌|>◌, lit, indexed, or_row, make_tab_bar, hex_str,
}
use caneo.Tui.{Tui, clamp_index}
use caneo.Common.{
  ℕ, ◌+◌, Bool, true, false, not, ◌&&◌, ◌||◌, Option, none, some, List, [], ◌∷◌, ◌++◌, map, leb,
  ◌==◌, if◌then◌else◌, length, get_elem?, set, any, is_empty,
}
use caneo.Common.Text.{Text}
use caneo.Common.OrderedMap.{nat_key, text_key, pair_key}

-- `std::tolower` in the C locale.
lower_char : ℕ → ℕ
lower_char c = if leb b'A' c && leb c b'Z' then c + 32 else c

unfoldable pub to_lower : Text → Text
unfolding lower_char
to_lower s = map lower_char s

unfoldable pub is_prefix : Text → Text → Bool
is_prefix [] s = true
is_prefix (c ∷ cs) [] = false
is_prefix (c ∷ cs) (d ∷ ds) = c == d && is_prefix cs ds

-- `hay.find(needle) != npos`
unfoldable pub contains : Text → Text → Bool
unfolding is_prefix
contains needle [] = is_prefix needle []
contains needle (c ∷ cs) = is_prefix needle (c ∷ cs) || contains needle cs

-- The lambda of trace_matches, for a query in lower case.
unfoldable pub ci_contains : Text → Text → Bool
unfolding contains to_lower
ci_contains q hay = contains q (to_lower hay)

unfoldable pub trace_matches : ℕ → CanFrame → Text → Bool
unfolding ci_contains to_lower format_id
trace_matches id f query =
    let q = to_lower query in
    ci_contains q (format_id id)
    || ci_contains q f.msg_name
    || any (λ (s : DecodedSignal). ci_contains q s.name || ci_contains q s.unit) f.decoded

-- The entries of the loop that splits the frames, in the two vectors that it fills.
unfoldable pub split_entries :
    Text → List (ℕ × CanFrame) → List (ℕ × CanFrame) × List (ℕ × CanFrame)
unfolding trace_matches
split_entries q [] = ([], [])
split_entries q ((id, f) ∷ rest) =
    let r = split_entries q rest in
    if trace_matches id f q then ((id, f) ∷ r.0, r.1) else (r.0, (id, f) ∷ r.1)

unfoldable pub decoded_line : Ieee → DecodedSignal → Element
unfolding lit
decoded_line fp sig =
    text (lit "    " ++ sig.name ++ lit ": " ++ fp.to_string_f sig.value ++ lit " " ++ sig.unit)

delta_str : Ieee → DataFrameSet → ℕ → Text
unfolding lit delta
delta_str fp set id = elim (delta set id) [
  | none ↦ lit " | Δ ---    "
  | some d ↦ lit " | Δ " ++ fp.format_ms (fp.millis d) ++ lit "ms"
]

unfoldable pub make_frame_elem : Ieee → DataFrameSet → ℕ → CanFrame → Element
unfolding decoded_line delta_str lit format_id hex_str show
make_frame_elem fp set id f =
    let name = f.msg_name in
    let first_line = hbox (
      (text (format_id id) |> bold)
      ∷ (if is_empty name then text [] else text (lit "  " ++ name) |> bold)
      ∷ text (lit " | DLC:" ++ show 10 f.header.dlc)
      ∷ (text (delta_str fp set id) |> dim)
      ∷ (if is_empty f.decoded then text (lit " | " ++ hex_str f.payload) |> dim else text [])
      ∷ []) in
    vbox (first_line ∷ map (decoded_line fp) f.decoded)

-- One row; `row_idx` counts on from one call of make_scrollable_rows to the next.
unfoldable pub frame_row : Ieee → Tui → DataFrameSet → ℕ → ℕ × CanFrame → Element
unfolding make_frame_elem
frame_row fp t set row_idx entry =
    let elem = make_frame_elem fp set entry.0 entry.1 in
    if row_idx == t.trace_cursor && leb 1 t.nav_level then elem |> inverted |> focus else elem

unfoldable pub make_scrollable_rows :
    Ieee → Tui → DataFrameSet → ℕ → List (ℕ × CanFrame) → List Element
unfolding frame_row indexed
make_scrollable_rows fp t set row_idx entries = indexed (frame_row fp t set) row_idx entries

unfoldable pub search_bar : Tui → Element
unfolding lit
search_bar t = hbox (
    (text (lit "Suche: [") |> dim)
    ∷ text t.trace_search_buf
    ∷ (text (lit "_") |> inverted)
    ∷ (text (lit "]") |> dim)
    ∷ [])

unfoldable pub interface_tabs : Tui → Element
unfolding make_tab_bar
interface_tabs t = make_tab_bar (map (λ p. p.0) t.sets) t.sub_tab_trace (t.nav_level == 1)

-- The set of the selected tab.
unfoldable pub active_set : Tui → Option DataFrameSet
unfolding clamp_index
active_set t = elim (clamp_index t.sub_tab_trace (length t.sets)) [
  | none ↦ none
  | some i ↦ elim (get_elem? t.sets i) [ none ↦ none | some p ↦ some p.1 ]
]

unfoldable pub all_frames_view : Ieee → Tui → DataFrameSet → Element
unfolding make_scrollable_rows search_bar interface_tabs lit
all_frames_view fp t set =
    let rows = make_scrollable_rows fp t set 0 set.frames in
    let content =
      vbox (or_row rows (text (lit "(no frames)") |> dim)) |> vscroll_indicator |> frame in
    if t.trace_searching
    then vbox (interface_tabs t ∷ separator ∷ search_bar t ∷ separator ∷ content ∷ [])
    else vbox (interface_tabs t ∷ separator ∷ content ∷ [])

unfoldable pub search_view : Ieee → Tui → DataFrameSet → Element
unfolding split_entries make_scrollable_rows search_bar interface_tabs lit
search_view fp t set =
    let s = split_entries t.trace_search_buf set.frames in
    let matched_rows = make_scrollable_rows fp t set 0 s.0 in
    let unmatched_rows = make_scrollable_rows fp t set (length s.0) s.1 in
    let matched = or_row matched_rows (text (lit "(keine Treffer)") |> dim) in
    let unmatched = or_row unmatched_rows (text (lit "(keine weiteren Frames)") |> dim) in
    vbox (
      interface_tabs t
      ∷ separator
      ∷ search_bar t
      ∷ separator
      ∷ (vbox matched |> vscroll_indicator |> frame |> flex)
      ∷ separator
      ∷ (vbox unmatched |> vscroll_indicator |> frame)
      ∷ [])

unfoldable pub render_trace : Ieee → Tui → Element
unfolding active_set all_frames_view search_view interface_tabs lit
render_trace fp t = elim (active_set t) [
  | none ↦
      vbox
        (interface_tabs t ∷ separator ∷ (text (lit "Waiting for frames...") |> dim |> center) ∷ [])
  | some set ↦
      if not t.trace_searching || is_empty t.trace_search_buf
      then all_frames_view fp t set
      else search_view fp t set
]
