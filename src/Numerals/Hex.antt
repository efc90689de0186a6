-- ===== src/Numerals/Hex.antt =====
-- A number in hexadecimal digits reads back as itself.
use caneo.Common.{
  if_all, ℕ, zero, suc, ◌+◌, ◌-◌, ◌*◌, ◌/◌, ◌%◌, ◌^◌, ◌<◌, ◌≡◌, refl, ap, ◌∙◌, false, some, [], ◌∷◌,
  ◌++◌, arith, ltb, ◌==◌, if◌then◌else◌, length, replicate, All, is_empty,
}
use caneo.Common.Text.{Text}
use caneo.Common.OrderedMap.{nat_key, text_key, pair_key}
use mathlib.Core.List.{reverse, reverse-cons}
use caneo.Numerals.{
  is_space, digit_in, read_digits, read_number, skip_spaces, strip_0x, unsigned, ulong_limit,
  stoul_sign, stoul16, digit_char, digits_rev, show, format_id,
}

-- The digits of a number of at most `fuel` digits, the first one first.
abbrev digits : ℕ → ℕ → Text
digits fuel n = reverse (digits_rev 16 fuel n)

-- Characters that are hexadecimal digits, in upper case.
abbrev IsHex : ℕ → Type 0
IsHex c = (d : ℕ) × (d < 16) × (c ≡ digit_char d)

digit_in-digit_char : (d : ℕ) → d < 16 → digit_in 16 (digit_char d) ≡ some d
digit_in-digit_char d h = ground arith

digit_char-apart :
    (d : ℕ)
    → d < 16
    → (is_space (digit_char d) ≡ false)
      × (digit_char d == b'-' ≡ false)
      × (digit_char d == b'+' ≡ false)
      × (digit_char d == b'x' ≡ false)
      × (digit_char d == b'X' ≡ false)
digit_char-apart d h = ground arith

read_digits-append :
    (s t : Text) (acc : ℕ)
    → All IsHex s
    → read_digits 16 acc (s ++ t) ≡ read_digits 16 (read_digits 16 acc s) t
unfolding read_digits
read_digits-append [] t acc h = refl
read_digits-append (c ∷ s) t acc ((d, lt, e), k) =
    rw (e, digit_in-digit_char d lt, read_digits) (read_digits-append s t (acc * 16 + d) k)

read_digits-zeros :
    (k : ℕ) (t : Text) → read_digits 16 0 (replicate k b'0' ++ t) ≡ read_digits 16 0 t
unfolding read_digits
read_digits-zeros zero t = refl
read_digits-zeros (suc k) t = read_digits-zeros k t

All-snoc : (s : Text) (c : ℕ) → All IsHex s → IsHex c → All IsHex (s ++ (c ∷ []))
All-snoc [] c h k = (k, tt)
All-snoc (x ∷ s) c h k = (h.0, All-snoc s c h.1 k)

digits-suc :
    (fuel n : ℕ)
    → digits (suc fuel) n
      ≡ (if ltb n 16 then digit_char n ∷ [] else digits fuel (n / 16) ++ (digit_char (n % 16) ∷ []))
unfolding digits_rev
digits-suc fuel n =
    if_all
      (λ l. reverse l ≡ (
        if ltb n 16 then digit_char n ∷ [] else digits fuel (n / 16) ++ (digit_char (n % 16) ∷ [])))
      (ltb n 16) (λ h. rw h refl)
      (λ h. rw h (reverse-cons (digit_char (n % 16)) (digits_rev 16 fuel (n / 16))))

digits-IsHex : (fuel n : ℕ) → All IsHex (digits fuel n)
unfolding digits_rev
digits-IsHex zero n = tt
digits-IsHex (suc fuel) n = rw (digits-suc fuel n) (
    if_all (All IsHex) (ltb n 16) (λ h. ((n, ground (arith, h), refl), tt))
      (λ h. All-snoc _ _ (digits-IsHex fuel (n / 16)) (n % 16, omega arith, refl)))

read_one : (acc d : ℕ) → d < 16 → read_digits 16 acc (digit_char d ∷ []) ≡ acc * 16 + d
unfolding read_digits
read_one acc d h = rw (digit_in-digit_char d h, read_digits) refl

-- Enough digits show the whole number.
read_digits-digits : (fuel n : ℕ) → n < 16 ^ fuel → read_digits 16 0 (digits fuel n) ≡ n
unfolding read_digits digits_rev
read_digits-digits zero n h = omega (arith, h)
read_digits-digits (suc fuel) n h = rw (digits-suc fuel n) (
    if_all (λ s. read_digits 16 0 s ≡ n) (ltb n 16)
      (λ k. rw (digit_in-digit_char n (ground (arith, k)), read_digits) (omega arith))
      (λ k.
        read_digits-append (digits fuel (n / 16)) _ 0 (digits-IsHex fuel (n / 16))
        ∙ read_one _ (n % 16) (omega arith)
        ∙ omega (arith, read_digits-digits fuel (n / 16) (omega (arith, h)))))

strip_0x-hex : (s : Text) → All IsHex s → strip_0x s ≡ s
unfolding strip_0x
strip_0x-hex [] h = refl
strip_0x-hex (z ∷ []) h = refl
strip_0x-hex (z ∷ x ∷ []) h = refl
strip_0x-hex (z ∷ x ∷ d ∷ s) (h, k) =
    let (v, lt, e) = k.0 in let apart = digit_char-apart v lt in ground (arith, e, apart)

skip_spaces-hex : (c : ℕ) (s : Text) → IsHex c → skip_spaces (c ∷ s) ≡ c ∷ s
unfolding skip_spaces
skip_spaces-hex c s (d, lt, e) = rw (e, (digit_char-apart d lt).0, skip_spaces) refl

stoul_sign-hex :
    (c : ℕ) (s : Text)
    → IsHex c
    → stoul_sign (c ∷ s) ≡ unsigned false (read_number 16 (strip_0x (c ∷ s)))
unfolding stoul_sign
stoul_sign-hex c s (d, lt, e) =
    let apart = digit_char-apart d lt in rw (e, apart.1, apart.2, stoul_sign) refl

read_number-hex :
    (c : ℕ) (s : Text) → IsHex c → read_number 16 (c ∷ s) ≡ some (read_digits 16 0 (c ∷ s))
unfolding read_number read_digits
read_number-hex c s (d, lt, e) =
    rw (e, digit_in-digit_char d lt, read_number, read_digits)
      (ap (λ a. some (read_digits 16 a s)) (omega arith))

unsigned-small : (n : ℕ) → n < ulong_limit → unsigned false (some n) ≡ some n
unfolding unsigned ulong_limit
unsigned-small n h = ground (arith, h)

-- Digits, as std::stoul reads them: no space, no sign, no prefix.
pub stoul16-hex :
    (c : ℕ) (s : Text)
    → All IsHex (c ∷ s)
    → read_digits 16 0 (c ∷ s) < 2 ^ 64
    → stoul16 (c ∷ s) ≡ some (read_digits 16 0 (c ∷ s))
unfolding stoul16 ulong_limit
stoul16-hex c s h k =
    rw (skip_spaces-hex c s h.0, stoul16)
      (stoul_sign-hex c s h.0
        ∙ rw (strip_0x-hex (c ∷ s) h, read_number-hex c s h.0) (unsigned-small _ k))

replicate-IsHex : (k : ℕ) (s : Text) → All IsHex s → All IsHex (replicate k b'0' ++ s)
replicate-IsHex zero s h = h
replicate-IsHex (suc k) s h = ((0, omega arith, refl), replicate-IsHex k s h)

stoul16-nonempty :
    (s : Text) (n : ℕ)
    → is_empty s ≡ false
    → All IsHex s
    → read_digits 16 0 s ≡ n
    → n < 2 ^ 64
    → stoul16 s ≡ some n
stoul16-nonempty [] n e h r k = cc
stoul16-nonempty (c ∷ s) n e h r k = stoul16-hex c s h (rw r k) ∙ ap some r

is_empty-snoc : (s : Text) (c : ℕ) → is_empty (s ++ (c ∷ [])) ≡ false
is_empty-snoc [] c = refl
is_empty-snoc (x ∷ s) c = refl

is_empty-digits : (k fuel n : ℕ) → is_empty (replicate k b'0' ++ digits (suc fuel) n) ≡ false
is_empty-digits zero fuel n =
    rw (digits-suc fuel n)
      (if_all (λ s. is_empty s ≡ false) (ltb n 16) (λ h. refl) (λ h. is_empty-snoc _ _))
is_empty-digits (suc k) fuel n = refl

-- A number of 64 bits, shown with leading zeros, reads back as itself.
pub stoul16-show : (k n : ℕ) → n < 2 ^ 64 → stoul16 (replicate k b'0' ++ show 16 n) ≡ some n
unfolding show
stoul16-show k n h =
    stoul16-nonempty (replicate k b'0' ++ digits 64 n) n (is_empty-digits k 63 n)
      (replicate-IsHex k (digits 64 n) (digits-IsHex 64 n))
      (read_digits-zeros k (digits 64 n) ∙ read_digits-digits 64 n (omega (arith, h))) h

pub is_empty-show : (k n : ℕ) → is_empty (replicate k b'0' ++ show 16 n) ≡ false
unfolding show
is_empty-show k n = is_empty-digits k 63 n

-- The form of an ID in a topic.
pub format_id_lem :
    (n : ℕ) → format_id n ≡ b'0' ∷ b'x' ∷ (replicate (3 - length (show 16 n)) b'0' ++ show 16 n)
unfolding format_id
format_id_lem n = refl
