-- ===== src/Numerals.antt =====
-- The conversions of <string> and <format> that the program uses, with their documented behaviour:
-- `std::stol`, `std::stoul(s, nullptr, 16)` and `std::format("0x{:03X}", n)`. `long` has 64 bits.
pub mod Hex
use mathlib.Core.List.{reverse}
use caneo.Common.{
  ℕ, zero, suc, ◌+◌, ◌-◌, ◌*◌, ◌/◌, ◌%◌, ◌^◌, Bool, true, false, ◌&&◌, ◌||◌, Option, none, some, [],
  ◌∷◌, ◌++◌, ltb, leb, ◌==◌, if◌then◌else◌, length, replicate,
}
use caneo.Common.Text.{Text}
use caneo.Common.Int.{ℤ, pos, negsuc}
use caneo.Common.OrderedMap.{nat_key, text_key, pair_key}

-- `std::isspace`, `std::isdigit`, in the C locale.
abbrev pub is_space : ℕ → Bool
is_space c = c == 32 || (leb 9 c && leb c 13)

abbrev pub is_digit : ℕ → Bool
is_digit c = leb b'0' c && leb c b'9'

-- The value of a hexadecimal digit, of either case.
abbrev pub digit_value : ℕ → Option ℕ
digit_value c =
    if is_digit c
    then some (c - b'0')
    else if leb b'A' c && leb c b'F'
    then some (c - 55)
    else if leb b'a' c && leb c b'f'
    then some (c - 87)
    else none

-- A digit of a base, if it is one.
abbrev pub digit_in : ℕ → ℕ → Option ℕ
digit_in base c = elim (digit_value c) [
  | none ↦ none
  | some d ↦ if ltb d base then some d else none
]

-- The number that the digits from here on make, up to the first other character.
pub read_digits : ℕ → ℕ → Text → ℕ
read_digits base acc [] = acc
read_digits base acc (c ∷ cs) = elim (digit_in base c) [
  | none ↦ acc
  | some d ↦ read_digits base (acc * base + d) cs
]

-- A number of at least one digit.
read_number : ℕ → Text → Option ℕ
unfolding read_digits
read_number base [] = none
read_number base (c ∷ cs) = elim (digit_in base c) [
  | none ↦ none
  | some d ↦ some (read_digits base d cs)
]

pub skip_spaces : Text → Text
skip_spaces [] = []
skip_spaces (c ∷ cs) = if is_space c then skip_spaces cs else c ∷ cs

long_limit : ℕ
long_limit = 2 ^ 63

signed : Bool → Option ℕ → Option ℤ
unfolding long_limit
signed neg none = none
signed false (some n) = if ltb n long_limit then some (pos n) else none
signed true (some zero) = some (pos 0)
signed true (some (suc n)) = if ltb n long_limit then some (negsuc n) else none

stol_sign : Text → Option ℤ
unfolding signed read_number
stol_sign [] = none
stol_sign (c ∷ cs) =
    if c == b'-'
    then signed true (read_number 10 cs)
    else if c == b'+'
    then signed false (read_number 10 cs)
    else signed false (read_number 10 (c ∷ cs))

-- `std::stol(s)`; nothing where it throws.
unfoldable pub stol : Text → Option ℤ
unfolding stol_sign skip_spaces
stol s = stol_sign (skip_spaces s)

-- Where a `0x` stands before a hexadecimal digit it is skipped.
strip_0x : Text → Text
strip_0x (z ∷ x ∷ d ∷ cs) =
    if z == b'0' && (x == b'x' || x == b'X')
    then elim (digit_in 16 d) [ none ↦ z ∷ x ∷ d ∷ cs | some v ↦ d ∷ cs ]
    else z ∷ x ∷ d ∷ cs
strip_0x s = s

ulong_limit : ℕ
ulong_limit = 2 ^ 64

-- `std::stoul` negates a number behind a minus sign in `unsigned long`.
unsigned : Bool → Option ℕ → Option ℕ
unfolding ulong_limit
unsigned neg none = none
unsigned neg (some n) =
    if ltb n ulong_limit then some (if neg then (ulong_limit - n) % ulong_limit else n) else none

stoul_sign : Text → Option ℕ
unfolding unsigned read_number strip_0x
stoul_sign [] = none
stoul_sign (c ∷ cs) =
    if c == b'-'
    then unsigned true (read_number 16 (strip_0x cs))
    else if c == b'+'
    then unsigned false (read_number 16 (strip_0x cs))
    else unsigned false (read_number 16 (strip_0x (c ∷ cs)))

-- `std::stoul(s, nullptr, 16)`; nothing where it throws.
unfoldable pub stoul16 : Text → Option ℕ
unfolding stoul_sign skip_spaces
stoul16 s = stoul_sign (skip_spaces s)

-- The digit of a value below 16, in upper case as `X` asks.
abbrev pub digit_char : ℕ → ℕ
digit_char d = if ltb d 10 then b'0' + d else 55 + d

-- The digits of a number, the last one first; `fuel` digits at most.
pub digits_rev : ℕ → ℕ → ℕ → Text
digits_rev base zero n = []
digits_rev base (suc fuel) n =
    let rest = digits_rev base fuel (n / base) in
    if ltb n base then digit_char n ∷ [] else digit_char (n % base) ∷ rest

-- A number of at most 64 bits has at most 64 digits in any base.
unfoldable pub show : ℕ → ℕ → Text
unfolding digits_rev
show base n = reverse (digits_rev base 64 n)

-- `std::to_string` of a `long`.
unfoldable pub to_string : ℤ → Text
unfolding show
to_string (pos n) = show 10 n
to_string (negsuc n) = b'-' ∷ show 10 (suc n)

-- `std::format("0x{:03X}", n)`: at least three digits.
unfoldable pub format_id : ℕ → Text
unfolding show
format_id n = let ds = show 16 n in b'0' ∷ b'x' ∷ (replicate (3 - length ds) b'0' ++ ds)
