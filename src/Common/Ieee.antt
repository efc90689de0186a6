-- ===== src/Common/Ieee.antt =====
-- `double` as its IEEE-754 bit pattern. The operations that the program applies to such values are a
-- parameter: the library has no floating point, and no theorem depends on how they round.
use Prim.Native.Nat.{ℕ}
use mathlib.Core.Bool.{Bool}
use mathlib.Core.Option.{Option}
use caneo.Common.Int.{ℤ}
use caneo.Common.Text.{Text}

abbrev pub Double : Type 0
Double = ℕ

pub record Ieee : Type 0 where
  -- `a == b` and `a < b`
  pub eq : Double → Double → Bool
  pub lt : Double → Double → Bool
  pub mul : Double → Double → Double
  pub add : Double → Double → Double
  -- `static_cast<double>` of a `uint64_t`, and `static_cast<long>` of a `double`
  pub of_uint64 : ℕ → Double
  pub to_long : Double → ℤ
  -- a `long` as a `double`, and nanoseconds as `duration<double>`
  pub of_long : ℤ → Double
  pub seconds : ℤ → Double
  -- nanoseconds as `duration<double, std::milli>`
  pub millis : ℤ → Double
  -- `a / b`, `std::sin`, `2.0 * std::numbers::pi` and `1000.0`
  pub div : Double → Double → Double
  pub sine : Double → Double
  pub two_pi : Double
  pub thousand : Double
  -- `std::pow(2.0, n)`
  pub pow2 : ℕ → Double
  -- between the bit patterns of a `float` and of a `double`
  pub float_to_double : ℕ → Double
  pub double_to_float : Double → ℕ
  -- `std::stod`, nothing where it throws, and `std::format("{:.6g}", v)`
  pub stod : Text → Option Double
  pub format_g : Double → Text
  -- `std::format("{:6.1f}", v)`, `std::format("{:.1f}", v)` and `std::to_string(v)`
  pub format_ms : Double → Text
  pub format_tenths : Double → Text
  pub to_string_f : Double → Text
