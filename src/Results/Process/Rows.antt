-- ===== src/Results/Process/Rows.antt =====
-- The rows of latencies.py, as process.py reads them.
use skyros.Results.Process.{Perf, read_perf, read_perfs}
use skyros.Results.Table.{lookup_pair, spaced}
use skyros.Base.Text.Grep.{unlines, file_lines-line, remove_newline}
use skyros.Base.Text.{
  =text_refl, join, ◌=text◌, newline, file_lines, codes, split, split-append, Lacks, Text,
}
use mathlib.Core.List.{map}
use skyros.Base.{
  or_else_assoc, or_else, ◌≡◌, refl, sym, ◌∙◌, inl, inr, Bool, false, ◌&&◌, Option, none, some,
  List, [], ◌∷◌, ◌++◌, arith, if◌then◌else◌, Bool-cases, ok, All,
}

-- A row: its first four fields, and the list that stands behind them.
pub record PerfRow : Type 0 where
  pub workload : Text
  pub op_type : Text
  pub metric : Text
  pub value : Text
  pub values : Text

abbrev pub perf_line : PerfRow → Text
perf_line r = spaced (r.workload ∷ r.op_type ∷ r.metric ∷ r.value ∷ r.values ∷ [])

pub record IsPerfRow (r : PerfRow) : Type 0 where
  pub workload_space : Lacks b' ' r.workload
  pub op_space : Lacks b' ' r.op_type
  pub metric_space : Lacks b' ' r.metric
  pub value_space : Lacks b' ' r.value
  pub one_line : Lacks newline (perf_line r)

-- The row is of the class "all" and of the metric.
abbrev pub is_read_for : Text → PerfRow → Bool
is_read_for metric r = (r.op_type =text codes "all") && (metric =text r.metric)

-- What the rows add to the dictionary.
abbrev pub perf_entries : Text → Text → List PerfRow → Perf → Perf
perf_entries metric code [] perf = perf
perf_entries metric code (r ∷ rows) perf =
    if is_read_for metric r
    then perf_entries metric code rows ((code, r.workload, r.value) ∷ perf)
    else perf_entries metric code rows perf

-- The value of the last row of the class "all" with the workload and the metric.
abbrev pub last_value : Text → Text → List PerfRow → Option Text
last_value metric workload [] = none
last_value metric workload (r ∷ rows) =
    or_else (last_value metric workload rows)
      (if is_read_for metric r && (r.workload =text workload) then some r.value else none)

perf_fields :
    (r : PerfRow)
    → IsPerfRow r
    → split b' ' (perf_line r) ≡ r.workload ∷ r.op_type ∷ r.metric ∷ r.value ∷ split b' ' r.values
unfolding join
perf_fields r h =
    rw
      (
        split-append b' ' r.workload _ h.workload_space,
        split-append b' ' r.op_type _ h.op_space,
        split-append b' ' r.metric _ h.metric_space,
        split-append b' ' r.value _ h.value_space,
      )
      refl

read_perf-row :
    (metric code : Text) (r : PerfRow) (perf : Perf)
    → IsPerfRow r
    → read_perf metric code (perf_line r ++ newline ∷ []) perf
      ≡ ok (if is_read_for metric r then (code, r.workload, r.value) ∷ perf else perf)
unfolding read_perf
read_perf-row metric code r perf h =
    rw (remove_newline (perf_line r) h.one_line) (rw (perf_fields r h) (ground arith))

pub read_perfs-entries :
    (metric code : Text) (rows : List PerfRow) (perf : Perf)
    → All IsPerfRow rows
    → read_perfs metric code (file_lines (unlines (map perf_line rows))) perf
      ≡ ok (perf_entries metric code rows perf)
unfolding read_perfs unlines file_lines
read_perfs-entries metric code [] perf h = refl
read_perfs-entries metric code (r ∷ rows) perf (hr, h) =
    rw (file_lines-line (perf_line r) (unlines (map perf_line rows)) hr.one_line) (
      rw (read_perf-row metric code r perf hr) (elim (Bool-cases (is_read_for metric r)) [
        | inl read ↦ rw read (read_perfs-entries metric code rows _ h)
        | inr other ↦ rw other (read_perfs-entries metric code rows _ h)
      ]))

-- The dictionary holds, for a workload, the value of its last row, or what it held before.
pub lookup_pair-entries :
    (metric code w : Text) (rows : List PerfRow) (perf : Perf)
    → lookup_pair code w (perf_entries metric code rows perf)
      ≡ or_else (last_value metric w rows) (lookup_pair code w perf)
unfolding lookup_pair
lookup_pair-entries metric code w [] perf = refl
lookup_pair-entries metric code w (r ∷ rows) perf = elim (Bool-cases (is_read_for metric r)) [
  | inr other ↦ rw other (
      lookup_pair-entries metric code w rows perf
      ∙ sym (or_else_assoc (last_value metric w rows) none (lookup_pair code w perf)))
  | inl read ↦
      rw (read, lookup_pair-entries metric code w rows ((code, r.workload, r.value) ∷ perf))
        (rw (=text_refl code) (elim (Bool-cases (r.workload =text w)) [
          | inl same ↦ rw same (
              sym
                (or_else_assoc (last_value metric w rows) (some r.value) (lookup_pair code w perf)))
          | inr differ ↦
              rw differ
                (sym (or_else_assoc (last_value metric w rows) none (lookup_pair code w perf)))
        ]))
]

-- The rows of another code leave the entries of a code as they are.
pub lookup_pair-other :
    (metric code other w : Text) (rows : List PerfRow) (perf : Perf)
    → (other =text code) ≡ false
    → lookup_pair code w (perf_entries metric other rows perf) ≡ lookup_pair code w perf
unfolding lookup_pair
lookup_pair-other metric code other w [] perf differ = refl
lookup_pair-other metric code other w (r ∷ rows) perf differ =
    let rest = lookup_pair-other metric code other w rows in
    elim (Bool-cases (is_read_for metric r)) [
      | inl read ↦ rw (read, rest ((other, r.workload, r.value) ∷ perf) differ, differ) refl
      | inr not_read ↦ rw (not_read, rest perf differ) refl
    ]
