-- ===== src/Results/Single/Rows.antt =====
-- What the tables of one code print, complete files or not.
use skyros.Base.Decimal.{str_int}
use skyros.Results.Average.{mean_of, throughput, mean_latency, average_lines}
use skyros.Results.Table.{Event, printed, show_list, spaced, measure_runs, Mismatch, measure_run}
use skyros.Base.Text.{Text}
use skyros.Results.Float.{Floats}
use skyros.Base.{
  append_assoc, append-nil, ℕ, ◌≡◌, sym, ◌∙◌, inl, inr, some, List, [], ◌∷◌, ◌++◌, ◌==◌,
  if◌then◌else◌, Bool-cases, ok, All, length,
}
use skyros.Base.Script.{trace_eq, for_each, Does}
use skyros.Results.Single.{throughput_table, point_runs, throughput_point, Point}

-- A result file that can be read: `n` lines, and what they give over the number of clients.
pub record Reading (F : Floats) : Type 0 where
  pub lines : ℕ
  pub avg : F.Float
  pub tput : F.Float

module _ (F : Floats) (cat : Text → Text) where
  pub record IsReading (client : ℕ) (resfile : Text) (r : Reading F) : Type 0 where
    pub counted : length (average_lines (cat resfile)) ≡ r.lines
    pub average : mean_latency F client (average_lines (cat resfile)) ≡ ok r.avg
    pub rate : throughput F client r.avg ≡ ok r.tput

  -- The report of a file whose lines are not as many as the clients.
  unfoldable pub report_events : ℕ → Text → Reading F → List Event
  report_events client resfile r =
      if client == r.lines then [] else printed (spaced (resfile ∷ str_int r.lines ∷ [])) ∷ []

  pub measure_run-IsReading :
      (client : ℕ) (resfile : Text) (r : Reading F)
      → IsReading client resfile r
      → Does
          (measure_run F cat Mismatch.report client resfile)
          (some (r.tput, r.avg))
          (report_events client resfile r)
  unfolding measure_run report_events
  measure_run-IsReading client resfile r h t = rw h.counted (elim (Bool-cases (client == r.lines)) [
    | inl complete ↦ rw complete (rw (h.average, h.rate) (trace_eq (sym (append-nil t))))
    | inr short ↦ rw short (rw (h.average, h.rate))
  ])

  -- The file of a point with one run, and what is printed for the point.
  pub record IsPoint (p : Point) (resfile : Text) (r : Reading F) (kops : F.Float) : Type 0 where
    pub one : p.resfiles ≡ resfile ∷ []
    pub reading : IsReading p.client resfile r
    pub thousands : F.div r.tput (F.of_int 1000) ≡ some kops

  unfoldable pub point_events : Point → Text → Reading F → F.Float → List Event
  point_events p resfile r kops =
      report_events p.client resfile r
      ++ printed (spaced (p.label ∷ F.str kops ∷ F.str r.avg ∷ show_list F (r.tput ∷ []) ∷ [])) ∷ []

  module _ (mean_one : (a : F.Float) → F.mean a [] ≡ a) where
    throughput_point-Does :
        (p : Point) (resfile : Text) (r : Reading F) (kops : F.Float)
        → IsPoint p resfile r kops
        → Does (throughput_point F cat p) tt (point_events p resfile r kops)
    unfolding throughput_point point_runs point_events measure_runs mean_of
    throughput_point-Does p resfile r kops h t =
        rw (h.one, measure_run-IsReading p.client resfile r h.reading t)
          (rw (mean_one r.tput, h.thousands, mean_one r.avg)
            (trace_eq (append_assoc t (report_events p.client resfile r) _)))

    -- What is printed for all points.
    pub table_events :
        (Text → Reading F) → (Text → F.Float) → (Point → Text) → List Point → List Event
    table_events reading kops file [] = []
    table_events reading kops file (p ∷ ps) =
        point_events p (file p) (reading (file p)) (kops (file p))
        ++ table_events reading kops file ps

    -- If the file of every point can be read, complete or not, then a throughput table has one row
    -- for each point, in order: the label, the throughput in thousands, the mean latency and the
    -- list of throughputs, all over the number of clients; and before the row, for a file whose
    -- lines are not as many as the clients, the file and the number of its lines.
    pub throughput_table-rows :
        (reading : Text → Reading F) (kops : Text → F.Float) (file : Point → Text)
        (points : List Point)
        → All (λ p. IsPoint p (file p) (reading (file p)) (kops (file p))) points
        → (t : List Event)
        → throughput_table F cat points t ≡ (ok tt, t ++ table_events reading kops file points)
    unfolding for_each table_events
    throughput_table-rows reading kops file [] h t = trace_eq (sym (append-nil t))
    throughput_table-rows reading kops file (p ∷ ps) (hp, h) t =
        rw (throughput_point-Does p (file p) (reading (file p)) (kops (file p)) hp t) (
          throughput_table-rows reading kops file ps h _
          ∙ trace_eq
              (append_assoc t (point_events p (file p) (reading (file p)) (kops (file p))) _))
