-- ===== src/Results/Calc/Measure.antt =====
-- What the first loop of `calc` measures, and how it fails.
use skyros.Results.Calc.{measure_workload, Config}
use skyros.Base.{
  refl, statistics_error, All, ℕ, ◌≡◌, ◌≢◌, List, [], ◌∷◌, ◌++◌, some, none, ok, err, length,
  ==_false, ==_refl,
}
use skyros.Base.Text.{Text}
use skyros.Results.Float.{Floats}
use skyros.Results.Average.{mean_of, average_lines, mean_latency, throughput}
use skyros.Results.Table.{
  measure_runs, base_file, show_list, Event, printed, Mismatch, spaced, measure_run,
}

-- The line that the script prints for a code and a workload with one run.
pub report_line : (F : Floats) → Text → Text → F.Float → F.Float → F.Float → Text
report_line F code workload tput avg kops =
    spaced (code ∷ workload ∷ F.str kops ∷ F.str avg ∷ show_list F (tput ∷ []) ∷ [])

module _ (F : Floats) (cat : Text → Text) where
  open F use {Float, of_int, div, str}

  -- A result file with the right number of lines, and what they give.
  pub record IsRun (client : ℕ) (resfile : Text) (tput avg : Float) : Type 0 where
    pub complete : length (average_lines (cat resfile)) ≡ client
    pub average : mean_latency F client (average_lines (cat resfile)) ≡ ok avg
    pub rate : throughput F client avg ≡ ok tput

  pub measure_run-IsRun :
      (policy : Mismatch) (client : ℕ) (resfile : Text) {tput avg : Float} (t : List Event)
      → IsRun client resfile tput avg
      → measure_run F cat policy client resfile t ≡ (ok (some (tput, avg)), t)
  unfolding measure_run
  measure_run-IsRun policy client resfile t h =
      rw (h.complete, ==_refl client) (rw (h.average, h.rate))

  module _ (client : ℕ) (resfile : Text) (t : List Event)
      (short : client ≢ length (average_lines (cat resfile))) where
    pub measure_run-skip : measure_run F cat Mismatch.skip client resfile t ≡ (ok none, t)
    unfolding measure_run
    measure_run-skip = rw (==_false client _ short)

  module _ (d : Text) (c : Config) (code workload : Text) where
    abbrev resfile_of : Text → Text
    resfile_of run_id = base_file d workload code c.client run_id

    pub measure_workload-one :
        (run_id : Text) {tput avg kops : Float} (t : List Event)
        → c.run_ids ≡ run_id ∷ []
        → IsRun c.client (resfile_of run_id) tput avg
        → F.mean tput [] ≡ tput
        → F.mean avg [] ≡ avg
        → div tput (of_int 1000) ≡ some kops
        → measure_workload F cat d c code workload t
          ≡ (ok kops, t ++ printed (report_line F code workload tput avg kops) ∷ [])
    unfolding measure_workload measure_runs mean_of report_line
    measure_workload-one run_id t one run mt ma divided = rw one (
        rw (measure_run-IsRun c.mismatch c.client (resfile_of run_id) t run)
          (rw (mt, ma) (rw divided)))

    -- Every run has another number of lines than there are clients.
    abbrev pub AllShort : List Text → Type 0
    AllShort = All (λ run_id. c.client ≢ length (average_lines (cat (resfile_of run_id))))

    measure_runs-skip :
        (ids : List Text) (totals : List Float × List Float) (t : List Event)
        → AllShort ids
        → measure_runs F
            (λ run_id. measure_run F cat Mismatch.skip c.client (resfile_of run_id))
            ids
            totals
            t
          ≡ (ok totals, t)
    unfolding measure_runs
    measure_runs-skip [] totals t h = refl
    measure_runs-skip (run_id ∷ rest) totals t (short, h) =
        rw (measure_run-skip c.client (resfile_of run_id) t short)
          (measure_runs-skip rest totals t h)

    -- Where short runs are skipped and every run of a workload is short, the mean of no runs is
    -- taken, and the script stops with a StatisticsError and not a word about the runs.
    pub measure_workload-skip :
        (t : List Event)
        → c.mismatch ≡ Mismatch.skip
        → AllShort c.run_ids
        → measure_workload F cat d c code workload t ≡ (err statistics_error, t)
    unfolding measure_workload mean_of
    measure_workload-skip t policy h = rw (policy, measure_runs-skip c.run_ids ([], []) t h)
