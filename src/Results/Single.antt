-- ===== src/Results/Single.antt =====
-- The scripts of experiments/results_repro that print one table: calc.py of micro-nilext-nonnilext,
-- calcexp2.py of micro-mixed-all, calcvrtput.py of micro-nilext-only, and calc.py and calc_orig.py
-- of micro-read-latest. They measure one code at several points; a file with too few lines is
-- reported and used all the same.
pub mod Points
pub mod Rows
use skyros.Base.Decimal.{str_int}
use skyros.Results.Average.{mean_of}
use skyros.Base.Text.{Text}
use skyros.Results.Float.{Floats}
use skyros.Base.{
  value_error, zero_division, or_raise, ℕ, zero, suc, ◌+◌, ◌-◌, ◌*◌, ◌/◌, ◌%◌, ◌≤◌, ◌<◌, ◌≡◌, refl,
  sym, ap, ◌∙◌, ◌≢◌, ◌⊎◌, inl, inr, Bool, true, false, not, ◌&&◌, ◌||◌, Option, none, some, List,
  [], ◌∷◌, ◌++◌, arith, ltb, leb, ◌==◌, if◌then◌else◌, Bool-cases, Result, ok, err, All, length,
}
use skyros.Base.Script.{Script, pure, raise, lift, emit, verify, ◌>>=◌, ◌>>◌, for_each}
use skyros.Results.Table.{show_list, spaced, measure_run, measure_runs, Event, Mismatch, printed}

-- A point of a table: what is printed for it, the number of clients, and its result files.
pub record Point : Type 0 where
  pub label : Text
  pub client : ℕ
  pub resfiles : List Text

module _ (F : Floats) where
  open F use {Float, float, of_int, mul, div, trunc, str}

  -- the loop over the runs of a point
  unfoldable pub point_runs : (Text → Text) → Point → Script Event (List Float × List Float)
  point_runs cat p = measure_runs F (measure_run F cat Mismatch.report p.client) p.resfiles ([], [])

  -- the body of the loop of the throughput tables
  unfoldable pub throughput_point : (Text → Text) → Point → Script Event (Unit {0})
  throughput_point cat p = do
    totals ← point_runs cat p
    tput ← lift (mean_of F totals.0)
    kops ← lift (or_raise (div tput (of_int 1000)) zero_division)
    latency ← lift (mean_of F totals.1)
    emit (printed (spaced (p.label ∷ str kops ∷ str latency ∷ show_list F totals.0 ∷ [])))

  abbrev pub throughput_table : (Text → Text) → List Point → Script Event (Unit {0})
  throughput_table cat points = for_each points (throughput_point cat)

  -- the body of the loop of micro-read-latest; the label is the fraction, printed in percent
  unfoldable pub latency_point : (Text → Text) → Point → Script Event (Unit {0})
  latency_point cat p = do
    totals ← point_runs cat p
    fraction ← lift (or_raise (float p.label) value_error)
    latency ← lift (mean_of F totals.1)
    emit (printed (spaced (str_int (trunc (mul fraction (of_int 100))) ∷ str latency ∷ [])))

  abbrev pub latency_table : (Text → Text) → List Point → Script Event (Unit {0})
  latency_table cat points = for_each points (latency_point cat)
