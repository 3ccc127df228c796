-- ===== src/Results/Table.antt =====
-- What the result scripts of experiments/results_repro share: the files that they read and write,
-- and the loop over the runs of one measurement.
use mathlib.Core.List.{map}
use skyros.Base.{
  ℕ, List, [], ◌∷◌, ◌++◌, Bool, true, false, Option, none, some, ◌==◌, assertion_error, length,
  if◌then◌else◌, ◌&&◌,
}
use skyros.Base.Script.{Script, pure, raise, lift, emit, ◌>>=◌, ◌>>◌}
use skyros.Base.Text.{Text, codes, tab, ◌=text◌, join}
use skyros.Base.Decimal.{str_int}
use skyros.Results.Float.{Floats}
use skyros.Results.Average.{average_lines, mean_latency, throughput}

-- What a script does to the outside: a line on the standard output, a part of one (a `print` with a
-- comma at its end), and the files of its tables.
pub data Event : Type 0 where
  printed : Text → Event
  printed_part : Text → Event
  opened : Text → Event
  wrote : Text → Text → Event
  closed : Text → Event

-- What the script does when the number of "Average" lines is not the number of clients.
pub data Mismatch : Type 0 where
  stop : Mismatch
  skip : Mismatch
  report : Mismatch

-- `d + "/{0}.vr.{1}.data.no.3.yes.0.{2}.{3}.dir/{0}.vr.{1}.data.no.3.yes.0.{2}.{3}"`
abbrev pub run_name : Text → Text → ℕ → Text → Text
run_name workload code client run_id =
    workload
    ++ (codes ".vr."
        ++ (code ++ (codes ".data.no.3.yes.0." ++ (str_int client ++ (codes "." ++ run_id)))))

unfoldable pub base_file : Text → Text → Text → ℕ → Text → Text
base_file d workload code client run_id =
    d
    ++ (codes "/"
        ++ (run_name workload code client run_id
            ++ (codes ".dir/" ++ run_name workload code client run_id)))

-- `dict[key]`, `none` where the key is missing
unfoldable pub lookup : {V : Type 0} → Text → List (Text × V) → Option V
lookup key [] = none
lookup key ((k, v) ∷ rest) = if k =text key then some v else lookup key rest

-- `dict[k1][k2]`
unfoldable pub lookup_pair : {V : Type 0} → Text → Text → List (Text × Text × V) → Option V
lookup_pair a b [] = none
lookup_pair a b ((j, k, v) ∷ rest) =
    if (j =text a) && (k =text b) then some v else lookup_pair a b rest

-- `'\t'.join(fields)`, which the scripts write as a sum
abbrev pub tabbed : List Text → Text
tabbed = join (tab ∷ [])

-- a `print` of several values
abbrev pub spaced : List Text → Text
spaced = join (codes " ")

module _ (F : Floats) where
  open F use {Float, of_int, div, round, str, repr}

  -- the text of a list, as Python prints it
  unfoldable pub show_list : List Float → Text
  show_list xs = b'[' ∷ (join (codes ", ") (map repr xs) ++ b']' ∷ [])

  -- the test of the number of lines; `true` is to go on with the run, `false` is the `continue`
  mismatched : Mismatch → Text → ℕ → Script Event Bool
  mismatched Mismatch.stop resfile n = do
    emit (printed (join (codes " ") (resfile ∷ str_int n ∷ [])))
    raise assertion_error
  mismatched Mismatch.skip resfile n = pure false
  mismatched Mismatch.report resfile n = do
    emit (printed (join (codes " ") (resfile ∷ str_int n ∷ [])))
    pure true

  check_lines : Mismatch → ℕ → Text → ℕ → Script Event Bool
  unfolding mismatched
  check_lines policy client resfile n =
      if client == n then pure true else mismatched policy resfile n

  -- the throughput and the mean latency of a run
  measured : ℕ → List Text → Bool → Script Event (Option (Float × Float))
  measured client out false = pure none
  measured client out true = do
    avg_lat ← lift (mean_latency F client out)
    tput_sum ← lift (throughput F client avg_lat)
    pure (some (tput_sum, avg_lat))

  -- the body of `for run_id in run_ids`; `cat` is what the files hold
  unfoldable pub measure_run :
      (Text → Text) → Mismatch → ℕ → Text → Script Event (Option (Float × Float))
  unfolding check_lines measured mismatched
  measure_run cat policy client resfile =
      let out = average_lines (cat resfile) in
      do go_on ← check_lines policy client resfile (length out); measured client out go_on

  abbrev append_run : Option (Float × Float) → List Float × List Float → List Float × List Float
  append_run none totals = totals
  append_run (some (tput_sum, avg_lat)) (t_put_total, avg_lat_total) =
      (t_put_total ++ tput_sum ∷ [], avg_lat_total ++ avg_lat ∷ [])

  -- the loop; the totals are the lists `t_put_total` and `avg_lat_total`
  unfoldable pub measure_runs :
      (Text → Script Event (Option (Float × Float)))
      → List Text
      → List Float × List Float
      → Script Event (List Float × List Float)
  measure_runs run [] totals = pure totals
  measure_runs run (run_id ∷ rest) totals = do
    m ← run run_id
    measure_runs run rest (append_run m totals)
