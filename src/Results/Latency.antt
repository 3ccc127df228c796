-- ===== src/Results/Latency.antt =====
-- The latencies.py of commutativity-kv and micro-nilext-reads, and ycsb_latencies.py of ycsb: what
-- parse.py prints about a run, collected by the class of operations and by metric.
pub mod Mixed
pub mod Classify
pub mod Parse
pub mod Bench
use mathlib.Core.List.{map}
use skyros.Results.Float.{Floats}
use skyros.Base.Text.{tab, newline, codes, split, ◌=text◌, occurs_in, Text}
use skyros.Base.{
  value_error, from_end?, index_error, get_elem?, or_raise, ℕ, zero, suc, ◌+◌, ◌-◌, ◌*◌, ◌/◌, ◌%◌,
  ◌≤◌, ◌<◌, ◌≡◌, refl, sym, ap, ◌∙◌, ◌≢◌, ◌⊎◌, inl, inr, Bool, true, false, not, ◌&&◌, ◌||◌, Option,
  none, some, List, [], ◌∷◌, ◌++◌, arith, ltb, leb, ◌==◌, if◌then◌else◌, Bool-cases, Result, ok,
  err, All, length,
}
use skyros.Results.Table.{Event, printed, lookup, spaced, show_list, run_name}
use skyros.Base.Script.{Script, pure, raise, lift, emit, verify, ◌>>=◌, ◌>>◌, for_each}

abbrev pub interested : List Text
interested = codes "avg" ∷ codes "50.0" ∷ codes "90.0" ∷ codes "95.0" ∷ codes "99.0" ∷ []

module _ (F : Floats) where
  open F use {Float, float, str}

  -- `defaultdict(list)`, by metric
  abbrev pub Dict : Type 0
  Dict = List (Text × List Float)

  -- `dict[metric].append(value)`
  unfoldable pub append_value : Text → Float → Dict → Dict
  append_value metric value [] = (metric, value ∷ []) ∷ []
  append_value metric value ((k, vs) ∷ rest) =
      if k =text metric
      then (k, vs ++ value ∷ []) ∷ rest
      else (k, vs) ∷ append_value metric value rest

  -- `dict[metric]`, which is empty for a metric that has not occurred
  unfoldable pub values_of : Text → Dict → List Float
  values_of metric [] = []
  values_of metric ((k, vs) ∷ rest) = if k =text metric then vs else values_of metric rest

  -- the entry of a line whose fields are read
  unfoldable pub enter_line : Text → Dict → Script Event Dict
  enter_line line dict = do
    metric ← lift (or_raise (get_elem? (split tab line) 1) index_error)
    last ← lift (or_raise (from_end? (split tab line) 1) index_error)
    value ← lift (or_raise (float last) value_error)
    pure (append_value metric value dict)

  -- the body of `for line in out`
  unfoldable pub collect_line : Text → Text → Dict → Script Event Dict
  collect_line op_type line dict =
      if leb (length line) 1
      then pure dict
      else if not (occurs_in op_type line)
      then pure dict
      else enter_line line dict

  unfoldable pub collect_lines : Text → List Text → Dict → Script Event Dict
  collect_lines op_type [] dict = pure dict
  collect_lines op_type (line ∷ rest) dict = do
    dict' ← collect_line op_type line dict
    collect_lines op_type rest dict'

  -- `for op_type in op_types`, over the dict of each
  unfoldable pub collect_run : Text → List (Text × Dict) → Script Event (List (Text × Dict))
  collect_run out1 [] = pure []
  collect_run out1 ((op_type, dict) ∷ rest) = do
    dict' ← collect_lines op_type (split newline out1) dict
    rest' ← collect_run out1 rest
    pure ((op_type, dict') ∷ rest')

  -- `for run_id in run_ids`; `parse` is what parse.py prints for a directory
  unfoldable pub collect_runs :
      (Text → Text)
      → (Text → Text)
      → List Text
      → List (Text × Dict)
      → Script Event (List (Text × Dict))
  collect_runs parse resfile [] all_dict = pure all_dict
  collect_runs parse resfile (run_id ∷ rest) all_dict = do
    all_dict' ← collect_run (parse (resfile run_id)) all_dict
    collect_runs parse resfile rest all_dict'

  -- a row of the output; a metric with no values has none
  unfoldable pub print_metric : Text → Text → Dict → Text → Script Event (Unit {0})
  print_metric workload op_type dict metric = elim (values_of metric dict) [
    | [] ↦ pure tt
    | v ∷ vs ↦ emit (
        printed
          (spaced (workload ∷ op_type ∷ metric ∷ str (F.mean v vs) ∷ show_list F (v ∷ vs) ∷ [])))
  ]

  -- the body of `for workload in workloads`
  unfoldable pub workload_latencies :
      (Text → Text) → (Text → Text → Text) → List Text → List Text → Text → Script Event (Unit {0})
  workload_latencies parse resfile op_types run_ids workload = do
    all_dict ←
        collect_runs parse (resfile workload) run_ids (map (λ op_type. (op_type, [])) op_types)
    for_each all_dict (λ entry. for_each interested (print_metric workload entry.0 entry.1))

  -- the whole script; `dist` stands behind the workload in the names of the files
  abbrev pub latencies :
      (Text → Text)
      → Text
      → Text
      → Text
      → List Text
      → List Text
      → List Text
      → Script Event (Unit {0})
  latencies parse code d dist op_types run_ids workloads = for_each workloads (
      workload_latencies parse
        (λ workload run_id.
          d ++ (codes "/" ++ (run_name (workload ++ dist) code 10 run_id ++ codes ".dir/")))
        op_types run_ids)

  -- the three scripts
  abbrev pub ycsb_latencies : (Text → Text) → Text → Text → Script Event (Unit {0})
  ycsb_latencies parse code d =
      latencies parse code d []
        (codes "all" ∷ codes "nilextwrite" ∷ codes "read" ∷ codes "nonnilextwrite" ∷ [])
        (codes "1" ∷ []) (codes "a" ∷ codes "b" ∷ [])

  abbrev pub kv_latencies : (Text → Text) → Text → Text → Script Event (Unit {0})
  kv_latencies parse code d =
      latencies parse code d []
        (codes "all" ∷ codes "nilextwrite" ∷ codes "read" ∷ codes "nonnilextwrite" ∷ [])
        (codes "1" ∷ codes "2" ∷ codes "3" ∷ []) (codes "a" ∷ [])

  abbrev pub nilext_reads_latencies : (Text → Text) → Text → Text → Text → Script Event (Unit {0})
  nilext_reads_latencies parse code d dist =
      latencies parse code d dist (codes "all" ∷ codes "nilextwrite" ∷ codes "read" ∷ [])
        (codes "1" ∷ codes "2" ∷ codes "3" ∷ [])
        (codes "nw0.1." ∷ codes "nw0.3." ∷ codes "nw0.5." ∷ codes "nw0.7." ∷ codes "nw0.9." ∷ [])
