-- ===== src/Results/Calc/Total.antt =====
-- The whole of `calc`, from complete result files to the tables.
use skyros.Results.Calc.Entries.{HasEntry, entries, all_entries, all_entries_complete}
use mathlib.Core.Path.{subst}
use mathlib.Core.List.{map}
use skyros.Results.Calc.Rows.{write_groups-rows, Cell, IsCell, groups_spec}
use skyros.Base.Script.{for_each-emit, trace_eq}
use skyros.Results.Calc.Measure.{measure_workload-one, report_line, IsRun}
use skyros.Results.Calc.{
  calc, measure_workloads, measure_workload, measure_codes, Config, Throughputs,
}
use skyros.Results.Table.{closed, lookup, printed, base_file, opened, Event}
use skyros.Base.Text.{Text}
use skyros.Results.Float.{Floats}
use skyros.Base.{
  All-swap, All-zip, append_assoc, ◌∙◌, append-nil, sym, ◌++◌, ok, All-map, ◌≡◌, some, List, [],
  ◌∷◌, All,
}

-- What a code measures under a workload: the throughput and the mean latency of its one run, and
-- the throughput in thousands.
pub record Measurement (F : Floats) : Type 0 where
  pub tput : F.Float
  pub avg : F.Float
  pub kops : F.Float

module _ (F : Floats) (cat : Text → Text) (d : Text) (c : Config) (run_id : Text)
    (m : Text → Text → Measurement F) where
  -- The result file of a code and a workload is complete and gives the measurement.
  pub record IsMeasured (code workload : Text) : Type 0 where
    pub run :
        IsRun F cat c.client
          (base_file d workload code c.client run_id)
          (m code workload).tput
          (m code workload).avg
    pub thousands : F.div (m code workload).tput (F.of_int 1000) ≡ some (m code workload).kops

  abbrev kops_of : Text → Text → F.Float
  kops_of code workload = (m code workload).kops

  -- the line of a measurement on the output
  abbrev line_of : Text → Text → Event
  line_of code workload =
      let r = m code workload in printed (report_line F code workload r.tput r.avg r.kops)

  abbrev pub workload_events : Text → List Text → List Event
  workload_events code [] = []
  workload_events code (workload ∷ rest) = line_of code workload ∷ workload_events code rest

  abbrev pub code_events : List Text → List Event
  code_events [] = []
  code_events (code ∷ rest) = opened code ∷ (workload_events code c.workloads ++ code_events rest)

  code_lines :
      (t : List Event) (code : Text) (us vs : List Event)
      → ((t ++ opened code ∷ []) ++ us) ++ vs ≡ t ++ (opened code ∷ (us ++ vs))
  code_lines t code us vs = simp append_assoc

  module _ (one : c.run_ids ≡ run_id ∷ []) (mean_one : (a : F.Float) → F.mean a [] ≡ a) where
    measure_workload-line :
        (code workload : Text) (t : List Event)
        → IsMeasured code workload
        → measure_workload F cat d c code workload t
          ≡ (ok (kops_of code workload), t ++ line_of code workload ∷ [])
    measure_workload-line code workload t h =
        measure_workload-one F cat d c code workload run_id t one h.run (mean_one _) (mean_one _)
          h.thousands

    measure_workloads-lines :
        (code : Text) (ws : List Text) (dict : Throughputs F) (t : List Event)
        → All (IsMeasured code) ws
        → measure_workloads F (measure_workload F cat d c code) code ws dict t
          ≡ (ok (entries F kops_of code ws dict), t ++ workload_events code ws)
    unfolding measure_workloads entries
    measure_workloads-lines code [] dict t h = trace_eq (sym (append-nil t))
    measure_workloads-lines code (workload ∷ rest) dict t (hw, h) =
        rw (measure_workload-line code workload t hw) (
          measure_workloads-lines code rest _ (t ++ line_of code workload ∷ []) h
          ∙ trace_eq (append_assoc t (line_of code workload ∷ []) (workload_events code rest)))

    measure_codes-lines :
        (cs : List Text) (dict : Throughputs F) (t : List Event)
        → All (λ code. All (IsMeasured code) c.workloads) cs
        → measure_codes F cat d c cs dict t
          ≡ (ok (all_entries F kops_of c.workloads cs dict), t ++ code_events cs)
    unfolding measure_codes all_entries
    measure_codes-lines [] dict t h = trace_eq (sym (append-nil t))
    measure_codes-lines (code ∷ rest) dict t (hc, h) =
        rw (measure_workloads-lines code c.workloads dict (t ++ opened code ∷ []) hc) (
          measure_codes-lines rest _ _ h
          ∙ trace_eq (code_lines t code (workload_events code c.workloads) (code_events rest)))

    -- what is drawn for a workload and a code
    abbrev pub cell_of : (Text → Text → F.Float) → (Text → Text) → Text → Text → Cell F
    cell_of ratio label workload code = record {
      tput = kops_of code workload;
      ratio = ratio workload code;
      label = label workload;
    }

    -- the values that the dictionaries must hold for a workload
    abbrev pub IsRow : (Text → Text → F.Float) → (Text → Text) → Text → Type 0
    IsRow ratio label workload =
        (lookup workload c.labels ≡ some (label workload))
        × All
            (λ code.
              F.div (kops_of code workload) (kops_of c.baseline workload)
              ≡ some (ratio workload code))
            c.codenames

    cells_of_workload :
        (dict : Throughputs F) (ratio : Text → Text → F.Float) (label : Text → Text)
        (others : List Text)
        → c.codenames ≡ c.baseline ∷ others
        → (workload : Text)
        → IsRow ratio label workload
          × All (λ code. HasEntry F kops_of code workload dict) c.codenames
        → All (λ code. IsCell F c (cell_of ratio label) dict workload code) c.codenames
    cells_of_workload dict ratio label others first workload ((labelled, ratios), found) =
        let base =
          (subst (λ (cs : List Text). All (λ code. HasEntry F kops_of code workload dict) cs) first
            found).0 in
        All-map
          (λ code h. record {
            base = kops_of c.baseline workload;
            measured = h.1;
            baseline = base;
            divided = h.0;
            labelled = labelled;
          })
          c.codenames (All-zip _ _ c.codenames ratios found)

    -- If every result file is complete, the labels and the ratios to the baseline exist, and the
    -- baseline is the first code, then the script returns, and its effects are these and no others:
    -- for each code its table is opened and a line printed for each workload; then for each workload
    -- and each code, at the position of its bar, the throughput, its ratio to the baseline and the
    -- label are printed and written to the table of the code; then every table is closed.
    pub calc_tables :
        (ratio : Text → Text → F.Float) (label : Text → Text) (others : List Text)
        → c.codenames ≡ c.baseline ∷ others
        → All (λ code. All (IsMeasured code) c.workloads) c.codenames
        → All (IsRow ratio label) c.workloads
        → calc F cat d c [] ≡ (
          ok tt,
          code_events c.codenames
              ++ (groups_spec F c (cell_of ratio label) 0 c.workloads ++ map closed c.codenames),
        )
    unfolding calc
    calc_tables ratio label others first files ratios =
        let dict = all_entries F kops_of c.workloads c.codenames [] in
        let cells = All-map (cells_of_workload dict ratio label others first) c.workloads (
          All-zip _ _ c.workloads ratios (
            All-swap (λ code workload. HasEntry F kops_of code workload dict) c.codenames
              c.workloads (all_entries_complete F kops_of c.workloads c.codenames []))) in
        let rows = groups_spec F c (cell_of ratio label) 0 c.workloads in
        let before = code_events c.codenames in
        rw (measure_codes-lines c.codenames [] [] files) (
          rw (write_groups-rows F c (cell_of ratio label) dict before cells) (
            for_each-emit closed c.codenames (before ++ rows)
            ∙ trace_eq (append_assoc before rows (map closed c.codenames))))
