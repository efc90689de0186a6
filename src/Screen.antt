-- ===== src/Screen.antt =====
-- src/gui/TuiDataFrameSet.cpp, lines 784-1365: what `render` draws. FTXUI is a library: an element is
-- the tree of the calls that make it. The views are in the modules below.
pub mod Trace
pub mod Sending
pub mod Actions
pub mod Replay
pub mod Views
pub mod Focus
pub mod Rows
pub mod Single
pub mod Search
pub mod Found
pub mod Shown
mod Tests
use Prim.Native.String.{String}
use caneo.Common.Ieee.{Ieee}
use caneo.Numerals.{show}
use caneo.Send.{SendSignal}
use caneo.Tui.{pop_back}
use caneo.Common.{
  ℕ, ◌+◌, ◌-◌, ◌/◌, ◌%◌, Bool, not, ◌&&◌, List, [], ◌∷◌, ◌++◌, ltb, ◌==◌, if◌then◌else◌, length,
  replicate, is_empty,
}
use caneo.Common.Text.{Text, codes}

pub data Color : Type 0 where
  green red yellow : Color

pub data Decorator : Type 0 where
  bold dim inverted focus center frame vscroll_indicator flex nothing : Decorator
  color : Color → Decorator
  -- `size(WIDTH, EQUAL, n)`
  width : ℕ → Decorator

mutual
  pub data Element : Type 0 where
    text : Text → Element
    hbox_of : Elements → Element
    vbox_of : Elements → Element
    separator : Element
    filler : Element
    window : Element → Element → Element
    decorated : Decorator → Element → Element

  pub data Elements : Type 0 where
    nil : Elements
    cons : Element → Elements → Elements

abbrev pub elements : List Element → Elements
elements [] = nil
elements (e ∷ es) = cons e (elements es)

abbrev pub hbox : List Element → Element
hbox es = hbox_of (elements es)

abbrev pub vbox : List Element → Element
vbox es = vbox_of (elements es)

-- `e | d`
infixl 40 ◌|>◌
abbrev pub ◌|>◌ : Element → Decorator → Element
e |> d = decorated d e

-- The bytes of a character in UTF-8, the encoding of the source.
unfoldable pub utf8_char : ℕ → Text
utf8_char c =
    if ltb c 128
    then c ∷ []
    else if ltb c 2048
    then (192 + c / 64) ∷ (128 + c % 64) ∷ []
    else if ltb c 65536
    then (224 + c / 4096) ∷ (128 + (c / 64) % 64) ∷ (128 + c % 64) ∷ []
    else (240 + c / 262144) ∷ (128 + (c / 4096) % 64) ∷ (128 + (c / 64) % 64) ∷ (128 + c % 64) ∷ []

unfoldable pub utf8 : Text → Text
unfolding utf8_char
utf8 [] = []
utf8 (c ∷ cs) = utf8_char c ++ utf8 cs

unfoldable pub lit : String → Text
unfolding utf8
lit s = utf8 (codes s)

-- The rows of a loop over a list, the first at index `i`.
unfoldable pub indexed {ℓ} : {A : Type ℓ} → (ℕ → A → Element) → ℕ → List A → List Element
indexed f i [] = []
indexed f i (x ∷ xs) = f i x ∷ indexed f (i + 1) xs

-- A list of rows, or one row in its place.
abbrev pub or_row : List Element → Element → List Element
or_row [] e = e ∷ []
or_row (r ∷ rs) e = r ∷ rs

-- `e | d` where the test holds.
abbrev pub when : Bool → Decorator → Element → Element
when b d e = if b then e |> d else e

-- The mark before the row under the cursor.
unfoldable pub cursor_mark : Bool → Text
unfolding lit
cursor_mark b = if b then lit "▶ " else lit "  "

-- The loop of make_tab_bar.
unfoldable pub tabs : ℕ → Bool → ℕ → List Text → List Element
unfolding lit
tabs selected focused i [] = []
tabs selected focused i (l ∷ ls) =
    let rest = tabs selected focused (i + 1) ls in
    let padded = text (lit " " ++ l ++ lit " ") in
    let label =
      if i == selected then padded |> inverted |> (if focused then bold else dim) else padded in
    if is_empty ls then label ∷ rest else label ∷ text (lit "│") ∷ rest

unfoldable pub make_tab_bar : List Text → ℕ → Bool → Element
unfolding tabs
make_tab_bar labels selected focused = hbox (tabs selected focused 0 labels)

-- `std::format("{:>n}", s)` and `std::format("{:<n}", s)`, where each byte is one column.
unfoldable pub pad_left : ℕ → Text → Text
pad_left n s = replicate (n - length s) b' ' ++ s

unfoldable pub pad_right : ℕ → Text → Text
pad_right n s = s ++ replicate (n - length s) b' '

-- `std::format("{:02X}", b)`
hex_byte : ℕ → Text
unfolding show
hex_byte b = let ds = show 16 b in replicate (2 - length ds) b'0' ++ ds

hex_bytes : List ℕ → Text
unfolding hex_byte
hex_bytes [] = []
hex_bytes (b ∷ bs) = hex_byte b ++ (b' ' ∷ hex_bytes bs)

-- The bytes of a frame, the last space taken off.
unfoldable pub hex_str : List ℕ → Text
unfolding hex_bytes pop_back
hex_str bs = pop_back (hex_bytes bs)

-- The row of a signal of a message: its value, or what is being typed for it. `level` tells
-- whether the signals have the cursor.
unfoldable pub signal_row : Ieee → Bool → ℕ → Bool → Text → ℕ → SendSignal → Element
unfolding lit cursor_mark
signal_row fp level cursor editing_any buf i sig =
    let is_cur = i == cursor in
    let editing = is_cur && editing_any in
    let val_elem =
      if editing
      then hbox (text (lit "[") ∷ text buf ∷ text (lit "_]") ∷ []) |> inverted
      else text (fp.format_g sig.value) in
    let row = hbox (
      text (cursor_mark is_cur)
      ∷ (text (sig.name ++ lit ": ") |> (if is_cur then bold else nothing))
      ∷ val_elem
      ∷ (text (lit " " ++ sig.unit) |> dim)
      ∷ []) in
    when is_cur focus (when (is_cur && not editing && level) inverted row)
