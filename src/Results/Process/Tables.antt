-- ===== src/Results/Process/Tables.antt =====
-- The tables that process.py writes for the rows of two systems.
use skyros.Results.Process.{process_codes, workload_names, read_codes, Perf}
use skyros.Results.Process.Rows.{
  PerfRow, IsPerfRow, perf_line, perf_entries, last_value, read_perfs-entries, lookup_pair-entries,
  lookup_pair-other,
}
use skyros.Results.Process.Write.{latency_at, write_latency, write_row, process_metric}
use skyros.Results.Table.{Event, printed, printed_part, opened, wrote, closed, lookup, lookup_pair}
use skyros.Base.Text.Grep.{unlines}
use skyros.Results.Float.{Floats}
use skyros.Base.Text.{◌=text◌, newline, tab, codes, Text}
use mathlib.Core.List.{map}
use skyros.Base.{append-nil, append_assoc, ◌≡◌, refl, sym, ◌∙◌, some, List, [], ◌∷◌, ◌++◌, ok, All}
use skyros.Base.Script.{for_each, trace_eq}

names_found : All (λ e. lookup e.0 workload_names ≡ some e.1) workload_names
unfolding lookup ◌=text◌
names_found = (refl, (refl, (refl, (refl, (refl, tt)))))

-- What a system has at a workload: the text of its value, the value, the value over 1000, and the
-- ratio of the latency of "orig" to that.
pub record Latency (F : Floats) : Type 0 where
  pub text : Text
  pub value : F.Float
  pub thousandth : F.Float
  pub ratio : F.Float

module _ (F : Floats) (dist metric : Text) (rows : Text → List PerfRow)
    (at : Text → Text → Latency F) where
  open F use {Float, float, of_int, div, round, str}

  -- The files hold the rows of the two systems.
  pub record Holds (cat : Text → Text) : Type 0 where
    pub orig_file : cat (codes "orig_" ++ dist) ≡ unlines (map perf_line (rows (codes "orig")))
    pub rtop_file : cat (codes "rtop_" ++ dist) ≡ unlines (map perf_line (rows (codes "rtop")))
    pub orig_rows : All IsPerfRow (rows (codes "orig"))
    pub rtop_rows : All IsPerfRow (rows (codes "rtop"))

  -- A system has a row of the class "all" for the workload, with a number in it.
  pub record IsLatency (code workload : Text) : Type 0 where
    pub last : last_value metric workload (rows code) ≡ some (at code workload).text
    pub number : float (at code workload).text ≡ some (at code workload).value
    pub scaled : div (at code workload).value (of_int 1000) ≡ some (at code workload).thousandth
    pub compared :
        div (at (codes "orig") workload).thousandth (at code workload).thousandth
        ≡ some (at code workload).ratio

  abbrev perf : Perf
  perf =
      perf_entries metric (codes "rtop") (rows (codes "rtop"))
        (perf_entries metric (codes "orig") (rows (codes "orig")) [])

  read_codes-perf :
      (cat : Text → Text) → Holds cat → read_codes cat dist metric process_codes [] ≡ ok perf
  unfolding read_codes
  read_codes-perf cat h =
      rw (h.orig_file, h.rtop_file)
        (rw (read_perfs-entries metric (codes "orig") (rows (codes "orig")) [] h.orig_rows)
          (rw (read_perfs-entries metric (codes "rtop") (rows (codes "rtop")) _ h.rtop_rows) refl))

  orig_value :
      (workload : Text)
      → IsLatency (codes "orig") workload
      → lookup_pair (codes "orig") workload perf ≡ some (at (codes "orig") workload).text
  unfolding lookup_pair ◌=text◌
  orig_value workload h =
      lookup_pair-other metric (codes "orig") (codes "rtop") workload (rows (codes "rtop")) _ refl
      ∙ lookup_pair-entries metric (codes "orig") workload (rows (codes "orig")) []
      ∙ rw h.last refl

  rtop_value :
      (workload : Text)
      → IsLatency (codes "rtop") workload
      → lookup_pair (codes "rtop") workload perf ≡ some (at (codes "rtop") workload).text
  rtop_value workload h =
      lookup_pair-entries metric (codes "rtop") workload (rows (codes "rtop")) _ ∙ rw h.last refl

  -- The fields of a system in the row of a workload.
  abbrev pub fields_of : Text → Text → Text
  fields_of code workload =
      let l = at code workload in tab ∷ (str (round l.ratio 1) ++ tab ∷ str l.thousandth)

  latency_at-IsLatency :
      (code workload : Text) (t : List Event)
      → lookup_pair code workload perf ≡ some (at code workload).text
      → IsLatency code workload
      → latency_at F perf code workload t ≡ (ok (at code workload).thousandth, t)
  unfolding latency_at
  latency_at-IsLatency code workload t found h = rw found (rw (h.number) (rw h.scaled refl))

  abbrev pub table_file : Text
  table_file = metric ++ (codes "-" ++ dist)

  abbrev pub latency_events : Text → Text → List Event
  latency_events code workload =
      printed_part (fields_of code workload) ∷ wrote table_file (fields_of code workload) ∷ []

  write_latency-events :
      (code workload : Text) (t : List Event)
      → lookup_pair code workload perf ≡ some (at code workload).text
      → IsLatency code workload
      → IsLatency (codes "orig") workload
      → write_latency F table_file perf workload code t ≡ (ok tt, t ++ latency_events code workload)
  unfolding write_latency
  write_latency-events code workload t found h o =
      rw (latency_at-IsLatency code workload t found h) (
        rw (latency_at-IsLatency (codes "orig") workload t (orig_value workload o) o)
          (rw h.compared (trace_eq (append_assoc t _ _))))

  -- The row of a workload, printed and written in parts.
  abbrev pub row_events : Text → Text → List Event
  row_events workload name =
      (printed_part (name ++ tab ∷ metric) ∷ wrote table_file (name ++ tab ∷ metric) ∷ [])
      ++ (latency_events (codes "orig") workload
          ++ (latency_events (codes "rtop") workload
              ++ printed [] ∷ wrote table_file (newline ∷ []) ∷ []))

  write_row-events :
      (workload name : Text) (t : List Event)
      → lookup workload workload_names ≡ some name
      → IsLatency (codes "orig") workload
      → IsLatency (codes "rtop") workload
      → write_row F metric table_file perf workload t ≡ (ok tt, t ++ row_events workload name)
  unfolding write_row for_each
  write_row-events workload name t named o r = rw named (
      rw (write_latency-events (codes "orig") workload _ (orig_value workload o) o o) (
        rw (write_latency-events (codes "rtop") workload _ (rtop_value workload r) r o)
          (trace_eq (simp append_assoc))))

  abbrev pub table_events : List (Text × Text) → List Event
  table_events [] = []
  table_events ((workload, name) ∷ rest) = row_events workload name ++ table_events rest

  write_rows-events :
      (names : List (Text × Text)) (t : List Event)
      → All (λ e. lookup e.0 workload_names ≡ some e.1) names
      → All (λ e. IsLatency (codes "orig") e.0 × IsLatency (codes "rtop") e.0) names
      → for_each (map (λ e. e.0) names) (write_row F metric table_file perf) t
        ≡ (ok tt, t ++ table_events names)
  unfolding for_each
  write_rows-events [] t hn h = trace_eq (sym (append-nil t))
  write_rows-events ((workload, name) ∷ rest) t (hn, hns) ((o, r), h) =
      rw (write_row-events workload name t hn o r)
        (write_rows-events rest _ hns h ∙ trace_eq (append_assoc t _ _))

  -- If the files of both systems hold rows of latencies.py, and each has for every workload a row of
  -- the class "all" with the metric and a number, then the script, on that metric, opens the file of
  -- the table, prints and writes a row for each workload in order, and closes the file. The row has
  -- the name of the workload and the metric, and for each system the ratio of the latency of "orig"
  -- to its own, to one place, and its own over 1000, both from the last row of the system.
  pub process_metric-table :
      (cat : Text → Text)
      → Holds cat
      → All (λ e. IsLatency (codes "orig") e.0 × IsLatency (codes "rtop") e.0) workload_names
      → process_metric F cat dist metric []
        ≡ (ok tt, opened table_file ∷ (table_events workload_names ++ closed table_file ∷ []))
  unfolding process_metric
  process_metric-table cat holds h =
      rw (read_codes-perf cat holds) (rw (write_rows-events workload_names _ names_found h) refl)
