-- ===== src/Results/Fs/Table.antt =====
-- The tables of commutativity-fs/calc.py, from files that can be read.
use skyros.Results.Average.{mean_of}
use skyros.Results.Single.{point_runs}
use skyros.Base.Decimal.{str_int}
use skyros.Results.Fs.{write_code, write_codes, measure_all, fs_point, measure_code, fs_calc}
use skyros.Base.Text.{◌=text◌, newline, codes, Text}
use skyros.Results.Single.Rows.{measure_run-IsReading, report_events, IsPoint, Reading}
use skyros.Results.Float.{Floats}
use skyros.Results.Table.{
  lookup, measure_runs, show_list, spaced, tabbed, base_file, Event, printed, opened, wrote, closed,
}
use skyros.Base.{append_assoc, ℕ, ◌≡◌, some, List, [], ◌∷◌, ◌++◌, ok}
use skyros.Base.Script.{trace_eq, Does}

-- What a code has measured.
pub record Measured (F : Floats) : Type 0 where
  pub reading : Reading F
  pub kops : F.Float
  pub ratio : F.Float

module _ (F : Floats) (sorted : List F.Float → List F.Float) (cat : Text → Text) (d : Text)
    (m : Text → Measured F) where
  open F use {str, round}

  abbrev pub file_of : Text → Text
  file_of code = base_file d (codes "fs") code 4 (codes "1")

  pub record IsMeasuredCode (code : Text) : Type 0 where
    pub point : IsPoint F cat (fs_point d code) (file_of code) (m code).reading (m code).kops
    pub divided : F.div (m code).kops (m (codes "orig")).kops ≡ some (m code).ratio

  -- The report of a file that is not complete, and the line of the code.
  abbrev pub line_events : Text → List Event
  line_events code =
      report_events F cat 4 (file_of code) (m code).reading
      ++ printed (
          spaced (
            code
            ∷ str (m code).kops
            ∷ str (m code).reading.avg
            ∷ show_list F (sorted ((m code).reading.tput ∷ []))
            ∷ []))
        ∷ []

  -- The table of a code, with its one bar.
  abbrev pub bar_events : Text → Text → ℕ → List Event
  bar_events code name curx =
      opened code
      ∷ wrote code (
          tabbed (str_int curx ∷ name ∷ str (round (m code).ratio 1) ∷ str (m code).kops ∷ [])
          ++ newline ∷ [])
      ∷ closed code
      ∷ []

  measure_code-line :
      (code : Text)
      → ((a : F.Float) → F.mean a [] ≡ a)
      → IsMeasuredCode code
      → Does (measure_code F sorted cat d code) (m code).kops (line_events code)
  unfolding measure_code point_runs measure_runs mean_of
  measure_code-line code mean_one h t =
      rw (measure_run-IsReading F cat 4 (file_of code) (m code).reading h.point.reading t) (
        rw (mean_one (m code).reading.tput, h.point.thousands, mean_one (m code).reading.avg)
          (trace_eq (append_assoc t (report_events F cat 4 (file_of code) (m code).reading) _)))

  -- If the files of the three codes can be read, complete or not, and the throughputs divide by that
  -- of "orig", the script returns, prints a line for each code, behind the report of a file that is
  -- not complete, and writes for each code a table with the one bar of the code: its position, two
  -- widths apart from the next, its name, its ratio to "orig" and its throughput.
  pub fs_calc-tables :
      ((a : F.Float) → F.mean a [] ≡ a)
      → IsMeasuredCode (codes "orig")
      → IsMeasuredCode (codes "curp")
      → IsMeasuredCode (codes "rtop")
      → fs_calc F sorted cat d [] ≡ (
        ok tt,
        (line_events (codes "orig") ++ (line_events (codes "curp") ++ line_events (codes "rtop")))
            ++ (bar_events (codes "orig") (codes "Paxos") 12
                ++ (bar_events (codes "curp") (codes "Curp") 28
                    ++ bar_events (codes "rtop") (codes "Skyros") 44)),
      )
  unfolding fs_calc measure_all write_codes write_code lookup ◌=text◌
  fs_calc-tables mean_one orig curp rtop = rw (measure_code-line (codes "orig") mean_one orig []) (
      rw (measure_code-line (codes "curp") mean_one curp _) (
        rw (measure_code-line (codes "rtop") mean_one rtop _)
          (rw (orig.divided, curp.divided, rtop.divided) (trace_eq (simp append_assoc)))))
