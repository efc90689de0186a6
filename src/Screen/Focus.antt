-- ===== src/Screen/Focus.antt =====
-- How many elements of a screen have the focus: src/gui/TuiDataFrameSet.cpp, lines 797-1365.
use caneo.Screen.{
  decorated, Decorator, dim, focus, Element, Elements, nil, cons, hbox_of, vbox_of, text, separator,
  filler, window, elements, ◌|>◌, indexed, or_row, when, make_tab_bar, tabs, signal_row,
}
use caneo.Common.Ieee.{Ieee}
use caneo.Send.{SendSignal}
use caneo.Common.{
  ℕ, ◌+◌, ◌≤◌, ◌≡◌, refl, Bool, true, false, ◌&&◌, List, [], ◌∷◌, ◌++◌, map, arith, ltb, leb, ◌==◌,
  if◌then◌else◌, length,
}
use caneo.Common.Text.{Text}
use caneo.Common.OrderedMap.{nat_key, text_key, pair_key}

abbrev pub is_focus : Decorator → ℕ
is_focus focus = 1
is_focus _ = 0

unfoldable mutual
  pub focus_count : Element → ℕ
  focus_count (text s) = 0
  focus_count (hbox_of es) = focus_counts es
  focus_count (vbox_of es) = focus_counts es
  focus_count separator = 0
  focus_count filler = 0
  focus_count (window a b) = focus_count a + focus_count b
  focus_count (decorated d e) = is_focus d + focus_count e

  pub focus_counts : Elements → ℕ
  focus_counts nil = 0
  focus_counts (cons e es) = focus_count e + focus_counts es

abbrev pub total : List Element → ℕ
unfolding focus_count
total es = focus_counts (elements es)

pub total-append : (xs ys : List Element) → total (xs ++ ys) ≡ total xs + total ys
unfolding focus_count
total-append [] ys = omega arith
total-append (x ∷ xs) ys = omega (arith, total-append xs ys)

pub total-or_row : (xs : List Element) (s : Text) → total (or_row xs (text s |> dim)) ≡ total xs
unfolding focus_count
total-or_row [] s = refl
total-or_row (x ∷ xs) s = refl

pub total-map {ℓ} :
    {A : Type ℓ} (f : A → Element) (xs : List A)
    → ((x : A) → focus_count (f x) ≡ 0)
    → total (map f xs) ≡ 0
unfolding focus_count
total-map f [] h = refl
total-map f (x ∷ xs) h = omega (arith, h x, total-map f xs h)

-- One for a cursor among `n` rows from the row `i` on, else none.
abbrev pub within : ℕ → ℕ → ℕ → ℕ
within cursor i n = if leb i cursor && ltb cursor (i + n) then 1 else 0

pub total-indexed {ℓ} :
    {A : Type ℓ} (f : ℕ → A → Element) (c i : ℕ) (xs : List A)
    → ((j : ℕ) (x : A) → focus_count (f j x) ≤ (if j == c then 1 else 0))
    → total (indexed f i xs) ≤ within c i (length xs)
unfolding focus_count indexed
total-indexed f c i [] h = ground arith
total-indexed f c i (x ∷ xs) h = ground (arith, h i x, total-indexed f c (i + 1) xs h)

pub count-when :
    (b : Bool) (d : Decorator) (e : Element)
    → focus_count (when b d e) ≡ (if b then is_focus d else 0) + focus_count e
unfolding focus_count
count-when true d e = refl
count-when false d e = omega arith

total-tabs : (k : ℕ) (b : Bool) (i : ℕ) (ls : List Text) → total (tabs k b i ls) ≡ 0
unfolding focus_count tabs
total-tabs k b i [] = refl
total-tabs k b i (l ∷ ls) = ground (arith, total-tabs k b (i + 1) ls)

pub count-make_tab_bar : (ls : List Text) (k : ℕ) (b : Bool) → focus_count (make_tab_bar ls k b) ≡ 0
unfolding focus_count make_tab_bar
count-make_tab_bar ls k b = total-tabs k b 0 ls

-- A signal's row has the focus at the cursor, and nowhere else.
pub count-signal_row :
    (fp : Ieee) (level : Bool) (c : ℕ) (ed : Bool) (buf : Text) (i : ℕ) (s : SendSignal)
    → focus_count (signal_row fp level c ed buf i s) ≤ (if i == c then 1 else 0)
unfolding focus_count signal_row
count-signal_row fp level c ed buf i s = ground arith
