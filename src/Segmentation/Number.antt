-- ===== src/Segmentation/Number.antt =====
-- The dynamic values of a recognition result and the numeric guards of subgen_core/segmentation.py.
-- A time is a whole number of microseconds: `ticks` of them make a second.
use subgen_english_plex.Common.{
  ℕ, Bool, List, ℤ, pos, negsuc, scale, Result, ok, raise, ◌>>=◌, segmentation_error, ltb,
  if◌then◌else◌,
}

-- Code points of a Python string.
abbrev pub Text : Type 0
Text = List ℕ

abbrev pub ticks : ℕ
ticks = 1_000_000

-- What a field of a structured result can hold: a Python int, a finite float (in ticks), an infinity
-- or a NaN, a bool, a string, None (also for a key that is missing), or any other object.
pub data Value : Type 0 where
  integer : ℤ → Value
  real : ℤ → Value
  non_finite : Value
  boolean : Bool → Value
  text : Text → Value
  null : Value
  object : Value

-- `_finite_number`, in ticks.
unfoldable pub finite_number : Value → Result ℤ
finite_number (integer n) = ok (scale ticks n)
finite_number (real n) = ok n
finite_number _ = raise segmentation_error

-- A number that must not be negative, as a natural.
abbrev pub non_negative : ℤ → Result ℕ
non_negative (pos n) = ok n
non_negative (negsuc n) = raise segmentation_error

-- The test `number <= 0` of `_positive_number`.
abbrev pub above_zero : ℤ → Result ℕ
above_zero (pos n) = if ltb 0 n then ok n else raise segmentation_error
above_zero (negsuc n) = raise segmentation_error

-- `_positive_number`
unfoldable pub positive_number : Value → Result ℕ
unfolding finite_number
positive_number v = do n ← finite_number v; above_zero n
