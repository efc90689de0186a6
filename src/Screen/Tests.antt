-- ===== src/Screen/Tests.antt =====
-- A trace of two frames with a search, and the theorems on the screen at it.
use caneo.Screen.{Element, text, hbox, ◌|>◌, bold, inverted, lit, make_tab_bar, hex_str}
use caneo.Frame.{DataFrameSet, CanFrame}
use caneo.Common.Plain.{plain}
use caneo.Tui.{Tui, arrow_right}
use caneo.Tui.Handle.{handle}
use caneo.Tui.Session.{initial}
use caneo.Screen.Focus.{focus_count}
use caneo.Screen.Trace.{trace_matches, split_entries, search_view, to_lower}
use caneo.Screen.Search.{Any, Occurs, searched_texts, Matching, trace_matches_iff}
use caneo.Screen.Found.{two_lists, AreRows, search_view_lem}
use caneo.Screen.Single.{one_focus}
use caneo.Screen.Shown.{ShowsTab, handle_shows_tab}
use caneo.Screen.Views.{render}
use mathlib.Core.List.{Perm}
use caneo.Common.{
  ℕ, ◌≤◌, ◌≡◌, refl, ◌↔◌, true, false, none, some, List, [], ◌∷◌, ◌++◌, arith, length, All,
}
use caneo.Common.Text.{codes}
use caneo.Common.Int.{pos}
use caneo.Common.OrderedMap.{nat_key, text_key, pair_key}

abbrev speed_frame : CanFrame
speed_frame = record {
  header = record { id = 291; interface = codes "can0"; dlc = 2 };
  payload = 7 ∷ 171 ∷ [];
  decoded =
      record { name = codes "Kmh"; value = 7; unit = codes "km/h"; min_val = 0; max_val = 200 }
      ∷ [];
  msg_name = codes "Speed";
  timestamp = pos 5;
}

abbrev raw_frame : CanFrame
raw_frame = record {
  header = record { id = 16; interface = codes "can0"; dlc = 1 };
  payload = 1 ∷ [];
  decoded = [];
  msg_name = [];
  timestamp = pos 6;
}

abbrev entries : List (ℕ × CanFrame)
entries = (16, raw_frame) ∷ (291, speed_frame) ∷ []

abbrev searching : Tui
unfolding initial
searching = record (initial none) {
  nav_level = 1;
  trace_searching = true;
  trace_search_buf = codes "KM";
  sets = (codes "can0", record { interface = codes "can0"; frames = entries; deltas = [] }) ∷ [];
}

bytes_drawn : hex_str (7 ∷ 171 ∷ []) ≡ codes "07 AB"
unfolding hex_str
bytes_drawn = refl

bar_drawn :
    make_tab_bar (codes "A" ∷ codes "B" ∷ []) 1 true
    ≡ hbox (text (codes " A ") ∷ text (lit "│") ∷ (text (codes " B ") |> inverted |> bold) ∷ [])
unfolding make_tab_bar lit
bar_drawn = refl

speed_found : split_entries (codes "KM") entries ≡ ((291, speed_frame) ∷ [], (16, raw_frame) ∷ [])
unfolding split_entries
speed_found = refl

row_focused : focus_count (render plain searching (λ i. pos 0) none) ≡ 1
unfolding render focus_count searching
row_focused = refl

one_focus_example :
    focus_count (render plain searching (λ i. pos 0) (some (codes "gRPC", false))) ≤ 1
one_focus_example = one_focus plain searching (λ i. pos 0) (some (codes "gRPC", false))

handle_shows_tab_example : ShowsTab plain (handle plain (initial none) arrow_right).0 (λ i. pos 0)
unfolding initial
handle_shows_tab_example =
    handle_shows_tab plain (initial none) (λ i. pos 0) arrow_right
      (record { bounded = omega arith; known = omega arith; third = λ e. cc; second = λ e. cc })

trace_matches_iff_example :
    (trace_matches 291 speed_frame (codes "KM") ≡ true)
    ↔ Any (λ hay. Occurs (to_lower (codes "KM")) (to_lower hay)) (searched_texts 291 speed_frame)
trace_matches_iff_example = trace_matches_iff 291 speed_frame (codes "KM")

abbrev set : DataFrameSet
set = record { interface = codes "can0"; frames = entries; deltas = [] }

search_view_lem_example :
    (matched others : List (ℕ × CanFrame)) × (upper lower : List Element) × (search_view plain
        searching set
      ≡ two_lists plain searching set upper lower)
    × AreRows plain searching set 0 matched upper
    × AreRows plain searching set (length matched) others lower
    × All (Matching true (codes "KM")) matched
    × All (Matching false (codes "KM")) others
    × Perm (matched ++ others) entries
unfolding searching
search_view_lem_example = search_view_lem plain searching set
