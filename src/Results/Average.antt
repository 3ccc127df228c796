-- ===== src/Results/Average.antt =====
-- The loop that every calc*.py of experiments/results_repro has: the lines of a result file with
-- the word "Average", the latency that each names, the mean latency of the clients in
-- microseconds, and the throughput that follows from it.
pub mod Notice
pub mod Lines
use skyros.Base.{
  ℕ, zero, suc, ◌+◌, ◌*◌, ◌-◌, ◌≡◌, refl, List, [], ◌∷◌, ◌++◌, ◌==◌, Bool, true, false, Result, ok,
  err, PyError, assertion_error, value_error, index_error, zero_division, statistics_error,
  or_raise, length, from_end?, arith,
}
use skyros.Base.Checked.{◌>>=◌, ◌>>◌, guard}
use skyros.Base.Text.{Text, codes, newline, split, non_empty, grep}
use skyros.Base.Words.{words}
use skyros.Results.Float.{Floats}

-- `out.split('\n')` with the empty parts filtered out, of `cat resfile | grep Average`
unfoldable pub average_lines : Text → List Text
average_lines content = non_empty (split newline (grep (codes "Average") content))

module _ (F : Floats) where
  open F use {Float, float, of_int, add, div, mean}

  -- `v = filter(…, o.split(' ')); assert len(v) == 12; float(v[-4])`
  unfoldable pub latency_of_line : Text → Result Float
  latency_of_line o =
      let v = words o in
      do
        guard (length v == 12) assertion_error
        word ← or_raise (from_end? v 4) index_error
        or_raise (float word) value_error

  -- `for o in out: avg_lat += …`
  unfoldable pub add_latencies : Float → List Text → Result Float
  unfolding latency_of_line
  add_latencies avg_lat [] = ok avg_lat
  add_latencies avg_lat (o ∷ out) = do
    latency ← latency_of_line o
    add_latencies (add avg_lat latency) out

  -- the mean latency in microseconds: the sum over the number of clients, over 1000
  unfoldable pub mean_latency : ℕ → List Text → Result Float
  unfolding add_latencies
  mean_latency client out = do
    total ← add_latencies (of_int 0) out
    avg ← or_raise (div total (of_int client)) zero_division
    or_raise (div avg (of_int 1000)) zero_division

  -- `(1000*1000*client)/avg_lat`
  unfoldable pub throughput : ℕ → Float → Result Float
  throughput client avg_lat = or_raise (div (of_int (1000 * 1000 * client)) avg_lat) zero_division

  -- `statistics.mean(xs)`
  unfoldable pub mean_of : List Float → Result Float
  mean_of [] = err statistics_error
  mean_of (a ∷ rest) = ok (mean a rest)
