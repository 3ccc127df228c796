-- ===== src/Results/Process/Write.antt =====
-- process.py: the table of each metric.
use skyros.Base.Text.{newline, tab, codes, Text}
use skyros.Results.Float.{Floats}
use skyros.Results.Process.{process_codes, process_metrics, workload_names, Perf, read_codes}
use skyros.Results.Table.{lookup_pair, lookup, Event, printed, printed_part, opened, wrote, closed}
use mathlib.Core.List.{map}
use skyros.Base.{value_error, zero_division, key_error, or_raise, [], ◌∷◌, ◌++◌}
use skyros.Base.Script.{Script, lift, emit, ◌>>=◌, ◌>>◌, for_each}

module _ (F : Floats) where
  open F use {Float, float, of_int, div, round, str}

  -- `float(perf_dict[code][workload])/1000.0`
  unfoldable pub latency_at : Perf → Text → Text → Script Event Float
  latency_at perf code workload = do
    text ← lift (or_raise (lookup_pair code workload perf) key_error)
    value ← lift (or_raise (float text) value_error)
    lift (or_raise (div value (of_int 1000)) zero_division)

  -- the body of the loop over the codes
  unfoldable pub write_latency : Text → Perf → Text → Text → Script Event (Unit {0})
  write_latency outfile perf workload code = do
    latency_system ← latency_at perf code workload
    latency_baseline ← latency_at perf (codes "orig") workload
    ratio ← lift (or_raise (div latency_baseline latency_system) zero_division)
    let text = tab ∷ (str (round ratio 1) ++ tab ∷ str latency_system)
    emit (printed_part text)
    emit (wrote outfile text)

  -- the body of the loop over the workloads
  unfoldable pub write_row : Text → Text → Perf → Text → Script Event (Unit {0})
  write_row metric outfile perf workload = do
    name ← lift (or_raise (lookup workload workload_names) key_error)
    emit (printed_part (name ++ tab ∷ metric))
    emit (wrote outfile (name ++ tab ∷ metric))
    for_each process_codes (write_latency outfile perf workload)
    emit (printed [])
    emit (wrote outfile (newline ∷ []))

  -- the body of the loop over the metrics
  unfoldable pub process_metric : (Text → Text) → Text → Text → Script Event (Unit {0})
  process_metric cat dist metric =
      let outfile = metric ++ (codes "-" ++ dist) in
      do
        perf ← lift (read_codes cat dist metric process_codes [])
        emit (opened outfile)
        for_each (map (λ e. e.0) workload_names) (write_row metric outfile perf)
        emit (closed outfile)

  -- the whole script
  abbrev pub process : (Text → Text) → Text → Script Event (Unit {0})
  process cat dist = for_each process_metrics (process_metric cat dist)
