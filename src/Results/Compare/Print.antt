-- ===== src/Results/Compare/Print.antt =====
-- compare.py: the second loop, which prints, and the two scripts.
use skyros.Base.Decimal.{str_int, PyInt}
use skyros.Base.Text.{file_lines, Text}
use skyros.Results.Float.{Floats}
use skyros.Results.Compare.{nonnilext_percent, mixed_percent, Throughputs, read_rows, throughput_at}
use skyros.Results.Table.{spaced, Event, printed}
use skyros.Base.{key_error, or_raise, ℕ, List, [], ◌∷◌, Result}
use skyros.Base.Script.{Script, lift, emit, ◌>>=◌, for_each}

module _ (F : Floats) (strip : Text → Text) (percent : Text → Result PyInt) where
  open F use {str}

  -- the body of the second loop
  unfoldable pub print_row :
      Throughputs F strip percent → Throughputs F strip percent → ℕ → Script Event (Unit {0})
  print_row orig rtop write_per = do
    a ← lift (or_raise (throughput_at F strip percent write_per orig) key_error)
    b ← lift (or_raise (throughput_at F strip percent write_per rtop) key_error)
    emit (printed (spaced (str_int write_per ∷ str a ∷ str b ∷ [])))

  -- the whole script, over what the files "orig" and "rtop" hold
  unfoldable pub compare_systems : Text → Text → List ℕ → Script Event (Unit {0})
  compare_systems orig_file rtop_file percents = do
    orig ← lift (read_rows F strip percent (file_lines orig_file) [])
    rtop ← lift (read_rows F strip percent (file_lines rtop_file) [])
    for_each percents (print_row orig rtop)

-- the two scripts
abbrev pub nonnilext_compare : (F : Floats) → (Text → Text) → Text → Text → Script Event (Unit {0})
nonnilext_compare F strip orig_file rtop_file =
    compare_systems F strip nonnilext_percent orig_file rtop_file
      (1 ∷ 2 ∷ 5 ∷ 10 ∷ 20 ∷ 40 ∷ 100 ∷ [])

abbrev pub mixed_compare : (F : Floats) → (Text → Text) → Text → Text → Script Event (Unit {0})
mixed_compare F strip orig_file rtop_file =
    compare_systems F strip mixed_percent orig_file rtop_file (10 ∷ 30 ∷ 50 ∷ 70 ∷ 90 ∷ [])
