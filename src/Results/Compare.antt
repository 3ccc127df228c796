-- ===== src/Results/Compare.antt =====
-- compare.py of micro-nilext-nonnilext and micro-mixed-all: the throughputs of two systems, as
-- calc.py and calcexp2.py have printed them into files, side by side.
pub mod Print
pub mod Tables
use skyros.Base.Checked.{◌>>=◌}
use skyros.Base.Text.{starts_with, codes, split, file_lines, put_front, Text}
use skyros.Base.Decimal.{str_int, int, PyInt}
use skyros.Results.Float.{Floats}
use skyros.Base.{
  index_error, key_error, value_error, get_elem?, or_raise, ℕ, zero, suc, ◌+◌, ◌-◌, ◌*◌, ◌/◌, ◌%◌,
  ◌≤◌, ◌<◌, ◌≡◌, refl, sym, ap, ◌∙◌, ◌≢◌, ◌⊎◌, inl, inr, Bool, true, false, not, ◌&&◌, ◌||◌, Option,
  none, some, List, [], ◌∷◌, ◌++◌, arith, ltb, leb, ◌==◌, if◌then◌else◌, Bool-cases, Result, ok,
  err, All, length,
}

-- `s.split(sep)` for a separator of several characters; the number counts those of a separator
-- that are still to be passed over
unfoldable pub split_text : Text → ℕ → Text → List Text
split_text sep passed [] = [] ∷ []
split_text sep (suc k) (c ∷ s) = split_text sep k s
split_text sep zero (c ∷ s) =
    let behind = split_text sep (length sep - 1) s in
    let here = put_front c (split_text sep 0 s) in
    if starts_with sep (c ∷ s) then [] ∷ behind else here

-- `parts[i]`
abbrev pub part : List Text → ℕ → Result Text
part parts i = or_raise (get_elem? parts i) index_error

-- `int(label.split('ee')[1])` of micro-nilext-nonnilext
unfoldable pub nonnilext_percent : Text → Result PyInt
nonnilext_percent label = do
  percent ← part (split_text (codes "ee") 0 label) 1
  or_raise (int percent) value_error

-- `n * 10`
abbrev pub times_ten : PyInt → PyInt
times_ten (PyInt.natural n) = PyInt.natural (n * 10)
times_ten (PyInt.negative n) = PyInt.negative (n * 10)

-- `int(label.split('w')[1].split('.')[1]) * 10` of micro-mixed-all
unfoldable pub mixed_percent : Text → Result PyInt
mixed_percent label = do
  behind ← part (split b'w' label) 1
  tenth ← part (split b'.' behind) 1
  n ← or_raise (int tenth) value_error
  ok (times_ten n)

abbrev pub same_int : PyInt → ℕ → Bool
same_int (PyInt.natural n) m = n == m
same_int (PyInt.negative n) m = (n == 0) && (m == 0)

module _ (F : Floats) (strip : Text → Text) (percent : Text → Result PyInt) where
  open F use {Float, float}

  -- `thrpt_dict[system]`, the last entry first
  abbrev pub Throughputs : Type 0
  Throughputs = List (PyInt × Float)

  -- the body of `for line in f`
  unfoldable pub read_row : Text → Throughputs → Result Throughputs
  read_row line dict = do
    label ← part (split b' ' line) 0
    write_per ← percent label
    second ← part (split b' ' line) 1
    thrpt ← or_raise (float (strip second)) value_error
    ok ((write_per, thrpt) ∷ dict)

  unfoldable pub read_rows : List Text → Throughputs → Result Throughputs
  read_rows [] dict = ok dict
  read_rows (line ∷ rest) dict = do dict' ← read_row line dict; read_rows rest dict'

  -- `thrpt_dict[system][write_per]`
  unfoldable pub throughput_at : ℕ → Throughputs → Option Float
  throughput_at m [] = none
  throughput_at m ((n, thrpt) ∷ rest) = if same_int n m then some thrpt else throughput_at m rest
