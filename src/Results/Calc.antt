-- ===== src/Results/Calc.antt =====
-- The calc.py of commutativity-compat, commutativity-kv, rocksdb and ycsb: one program over four
-- configurations. For every code and workload it measures the runs, and then it writes a table
-- for each code, with the throughput over that of the baseline.
pub mod Measure
pub mod Rows
pub mod Entries
pub mod Total
pub mod Scripts
use skyros.Base.{
  ℕ, ◌+◌, ◌≡◌, refl, List, [], ◌∷◌, ◌++◌, Bool, true, false, Option, none, some, Result, ok, err,
  ◌==◌, PyError, assertion_error, key_error, zero_division, or_raise, length, if◌then◌else◌, ◌&&◌,
}
use skyros.Base.Script.{Script, pure, raise, lift, emit, verify, ◌>>=◌, ◌>>◌, for_each}
use skyros.Base.Text.{Text, codes, newline, tab, ◌=text◌, join}
use skyros.Base.Decimal.{str_int}
use skyros.Results.Float.{Floats}
use skyros.Results.Average.{average_lines, mean_latency, throughput, mean_of}
use skyros.Results.Table.{
  Event, printed, opened, wrote, closed, Mismatch, base_file, lookup, lookup_pair, tabbed, spaced,
  measure_run, measure_runs, show_list,
}

pub record Config : Type 0 where
  pub client : ℕ
  pub workloads : List Text
  pub codenames : List Text
  -- `workloadnames`
  pub labels : List (Text × Text)
  pub run_ids : List Text
  pub baseline : Text
  pub mismatch : Mismatch
  pub curx : ℕ
  pub bar_width : ℕ

module _ (F : Floats) where
  open F use {Float, of_int, div, round, str}

  -- the body of `for workload in workloads`, up to the entry of `throughput_dict`
  pub measure_workload : (Text → Text) → Text → Config → Text → Text → Script Event Float
  measure_workload cat d c code workload = do
    totals ←
        measure_runs F
          (λ run_id.
            measure_run F cat c.mismatch c.client (base_file d workload code c.client run_id))
          c.run_ids ([], [])
    tput ← lift (mean_of F totals.0)
    kops ← lift (or_raise (div tput (of_int 1000)) zero_division)
    latency ← lift (mean_of F totals.1)
    emit (printed (spaced (code ∷ workload ∷ str kops ∷ str latency ∷ show_list F totals.0 ∷ [])))
    pure kops

  abbrev pub Throughputs : Type 0
  Throughputs = List (Text × Text × Float)

  pub measure_workloads :
      (Text → Script Event Float) → Text → List Text → Throughputs → Script Event Throughputs
  measure_workloads measure code [] dict = pure dict
  measure_workloads measure code (workload ∷ rest) dict = do
    kops ← measure workload
    measure_workloads measure code rest ((code, workload, kops) ∷ dict)

  -- the first loop of the script
  pub measure_codes :
      (Text → Text) → Text → Config → List Text → Throughputs → Script Event Throughputs
  unfolding measure_workloads
  measure_codes cat d c [] dict = pure dict
  measure_codes cat d c (code ∷ rest) dict = do
    emit (opened code)
    dict' ← measure_workloads (measure_workload cat d c code) code c.workloads dict
    measure_codes cat d c rest dict'

  -- the body of the second loop: a row on the output and one in the table of `code`
  pub write_bar : Config → Throughputs → Text → Text → ℕ → Script Event (Unit {0})
  write_bar c dict workload code curx = do
    tput ← lift (or_raise (lookup_pair code workload dict) key_error)
    base ← lift (or_raise (lookup_pair c.baseline workload dict) key_error)
    ratio ← lift (or_raise (div tput base) zero_division)
    label ← lift (or_raise (lookup workload c.labels) key_error)
    let normalized = round ratio 2
    emit (printed (tabbed (str_int curx ∷ label ∷ code ∷ str normalized ∷ str tput ∷ [])))
    emit (
        wrote code (tabbed (str_int curx ∷ label ∷ str normalized ∷ str tput ∷ []) ++ newline ∷ []))

  pub write_bars : Config → Throughputs → Text → List Text → ℕ → Script Event ℕ
  write_bars c dict workload [] curx = pure curx
  write_bars c dict workload (code ∷ rest) curx = do
    write_bar c dict workload code curx
    write_bars c dict workload rest (curx + c.bar_width)

  -- the second loop of the script
  pub write_groups : Config → Throughputs → List Text → ℕ → Script Event ℕ
  write_groups c dict [] curx = pure curx
  write_groups c dict (workload ∷ rest) curx = do
    curx' ← write_bars c dict workload c.codenames curx
    write_groups c dict rest (curx' + c.bar_width)

  -- the whole script
  pub calc : (Text → Text) → Text → Config → Script Event (Unit {0})
  calc cat d c = do
    dict ← measure_codes cat d c c.codenames []
    curx ← write_groups c dict c.workloads c.curx
    for_each c.codenames (λ code. emit (closed code))
