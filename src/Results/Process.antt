-- ===== src/Results/Process.antt =====
-- process.py of micro-nilext-reads: the rows that latencies.py has printed for two systems, and a
-- table of each metric with the latencies and their ratio to those of "orig".
pub mod Write
pub mod Rows
pub mod Tables
use skyros.Base.Checked.{◌>>=◌}
use mathlib.Core.List.{map}
use skyros.Base.Text.{◌=text◌, tab, newline, remove_char, file_lines, codes, split, Text}
use skyros.Base.{
  value_error, index_error, key_error, zero_division, get_elem?, or_raise, ℕ, zero, suc, ◌+◌, ◌-◌,
  ◌*◌, ◌/◌, ◌%◌, ◌≤◌, ◌<◌, ◌≡◌, refl, sym, ap, ◌∙◌, ◌≢◌, ◌⊎◌, inl, inr, Bool, true, false, not,
  ◌&&◌, ◌||◌, Option, none, some, List, [], ◌∷◌, ◌++◌, arith, ltb, leb, ◌==◌, if◌then◌else◌,
  Bool-cases, Result, ok, err, All, length,
}

abbrev pub process_codes : List Text
process_codes = codes "orig" ∷ codes "rtop" ∷ []

abbrev pub process_metrics : List Text
process_metrics = codes "avg" ∷ codes "99.0" ∷ []

-- `workload_name`, in the order of `workloads`
abbrev pub workload_names : List (Text × Text)
workload_names =
    (codes "nw0.1.", codes "10")
    ∷ (codes "nw0.3.", codes "30")
    ∷ (codes "nw0.5.", codes "50")
    ∷ (codes "nw0.7.", codes "70")
    ∷ (codes "nw0.9.", codes "90")
    ∷ []

-- `perf_dict`, by code and workload, the last entry first
abbrev pub Perf : Type 0
Perf = List (Text × Text × Text)

-- `line_split_tmp[i]`
abbrev pub field : List Text → ℕ → Result Text
field parts i = or_raise (get_elem? parts i) index_error

-- the body of `for line in f`
unfoldable pub read_perf : Text → Text → Text → Perf → Result Perf
read_perf metric code line perf =
    let parts = split b' ' (remove_char newline line) in
    if length parts == 1 then ok perf else (do
      workload ← field parts 0
      op_type ← field parts 1
      (if not (op_type =text codes "all") then ok perf else (do
        found ← field parts 2
        (if not (metric =text found)
            then ok perf
            else (do value ← field parts 3; ok ((code, workload, value) ∷ perf))))))

unfoldable pub read_perfs : Text → Text → List Text → Perf → Result Perf
read_perfs metric code [] perf = ok perf
read_perfs metric code (line ∷ rest) perf = do
  perf' ← read_perf metric code line perf
  read_perfs metric code rest perf'

-- `for code in codes`; `cat` is what the files hold
unfoldable pub read_codes : (Text → Text) → Text → Text → List Text → Perf → Result Perf
read_codes cat dist metric [] perf = ok perf
read_codes cat dist metric (code ∷ rest) perf = do
  perf' ← read_perfs metric code (file_lines (cat (code ++ (codes "_" ++ dist)))) perf
  read_codes cat dist metric rest perf'
