-- ===== src/Common/Plain.antt =====
-- A value of the floating-point parameter, for examples: whole numbers stand for themselves.
use Prim.Native.Nat.{◌+◌, ◌*◌, ◌/◌, ◌^◌}
use mathlib.Core.Option.{some}
use mathlib.Core.List.{[], ◌∷◌}
use caneo.Common.Tests.{ltb, ◌==◌}
use caneo.Common.Lists.{length}
use caneo.Common.Int.{pos, pos_part}
use caneo.Common.Ieee.{Ieee}

-- Rounding plays no part here: every operation is a simple stand-in.
abbrev pub plain : Ieee
plain = record {
  eq = ◌==◌;
  lt = ltb;
  mul = ◌*◌;
  add = ◌+◌;
  of_uint64 = λ n. n;
  to_long = λ n. pos n;
  of_long = pos_part;
  seconds = pos_part;
  millis = pos_part;
  div = ◌/◌;
  sine = λ n. n;
  two_pi = 6;
  thousand = 1000;
  pow2 = λ n. 2 ^ n;
  float_to_double = λ n. n;
  double_to_float = λ n. n;
  stod = λ t. some (length t);
  format_g = λ v. v ∷ [];
  format_ms = λ v. v ∷ [];
  format_tenths = λ v. v ∷ [];
  to_string_f = λ v. v ∷ [];
}
