-- ===== src/Results/Compare/Tables.antt =====
-- The tables that calc.py and calcexp2.py have printed, as compare.py reads them.
use skyros.Results.Table.{spaced}
use skyros.Results.Compare.Print.{print_row, compare_systems}
use skyros.Base.Decimal.{str_int, PyInt}
use skyros.Base.Text.{split-append, newline, file_lines, split, Lacks, Text}
use skyros.Results.Float.{Floats}
use mathlib.Core.List.{map}
use skyros.Results.Table.{Event, printed, spaced}
use skyros.Base.Text.Grep.{unlines, file_lines-line}
use skyros.Results.Compare.{same_int, throughput_at, read_row, Throughputs, read_rows}
use skyros.Base.{
  or_else, append-nil, Option-cases, append_assoc, ℕ, ◌≡◌, refl, sym, ap, ◌∙◌, inl, inr, Option,
  none, some, List, [], ◌∷◌, ◌++◌, if◌then◌else◌, Bool-cases, Result, ok, All,
}
use skyros.Base.Script.{trace_eq, for_each}

-- A row of a table: its label with the percent in it, its throughput as it is printed and as it is
-- read, and the rest of the row.
pub record Row (F : Floats) : Type 0 where
  pub label : Text
  pub write_per : PyInt
  pub printed_thrpt : Text
  pub thrpt : F.Float
  pub rest : Text

abbrev pub row_line : {F : Floats} → Row F → Text
row_line r = r.label ++ b' ' ∷ (r.printed_thrpt ++ b' ' ∷ r.rest)

abbrev pub lines_of : {F : Floats} → List (Row F) → Text
lines_of rows = unlines (map row_line rows)

-- The throughput of the last row that has the percent.
abbrev pub last_with : {F : Floats} → ℕ → List (Row F) → Option F.Float
last_with m [] = none
last_with m (r ∷ rows) =
    let here = if same_int r.write_per m then some r.thrpt else none in
    or_else (last_with m rows) here

module _ (F : Floats) (strip : Text → Text) (percent : Text → Result PyInt) where
  open F use {Float, float, str}

  pub record IsRow (r : Row F) : Type 0 where
    pub label_space : Lacks b' ' r.label
    pub value_space : Lacks b' ' r.printed_thrpt
    pub one_line : Lacks newline (row_line r)
    pub percent_read : percent r.label ≡ ok r.write_per
    pub thrpt_read : float (strip r.printed_thrpt) ≡ some r.thrpt

  line_fields :
      (r : Row F)
      → IsRow r
      → split b' ' (row_line r ++ newline ∷ [])
        ≡ r.label ∷ r.printed_thrpt ∷ split b' ' (r.rest ++ newline ∷ [])
  line_fields r h =
      ap (split b' ') (simp append_assoc)
      ∙ split-append b' ' r.label (r.printed_thrpt ++ b' ' ∷ (r.rest ++ newline ∷ [])) h.label_space
      ∙ ap (λ (ts : List Text). r.label ∷ ts)
          (split-append b' ' r.printed_thrpt (r.rest ++ newline ∷ []) h.value_space)

  read_row-IsRow :
      (r : Row F) (dict : Throughputs F strip percent)
      → IsRow r
      → read_row F strip percent (row_line r ++ newline ∷ []) dict
        ≡ ok ((r.write_per, r.thrpt) ∷ dict)
  unfolding read_row
  read_row-IsRow r dict h = rw (line_fields r h, h.percent_read, h.thrpt_read)

  -- The entries of the dictionary, the last row first.
  entries : List (Row F) → Throughputs F strip percent → Throughputs F strip percent
  entries [] dict = dict
  entries (r ∷ rows) dict = entries rows ((r.write_per, r.thrpt) ∷ dict)

  read_rows-entries :
      (rows : List (Row F)) (dict : Throughputs F strip percent)
      → All IsRow rows
      → read_rows F strip percent (file_lines (lines_of rows)) dict ≡ ok (entries rows dict)
  unfolding read_rows unlines file_lines entries
  read_rows-entries [] dict h = refl
  read_rows-entries (r ∷ rows) dict (hr, h) =
      rw (file_lines-line (row_line r) (lines_of rows) hr.one_line, read_row-IsRow r dict hr)
        (read_rows-entries rows _ h)

  throughput_at-entries :
      (m : ℕ) (rows : List (Row F)) (dict : Throughputs F strip percent)
      → throughput_at F strip percent m (entries rows dict)
        ≡ or_else (last_with m rows) (throughput_at F strip percent m dict)
  unfolding throughput_at entries
  throughput_at-entries m [] dict = refl
  throughput_at-entries m (r ∷ rows) dict =
      rw (throughput_at-entries m rows ((r.write_per, r.thrpt) ∷ dict))
        (elim (Option-cases (last_with m rows)) [
          | inl missing ↦ elim (Bool-cases (same_int r.write_per m)) [
            | inl same ↦ rw (missing, same)
            | inr other ↦ rw (missing, other)
          ]
          | inr (x, found) ↦ rw found
        ])

  -- The line for a percent that both tables have.
  abbrev pub comparison : (ℕ → Float) → (ℕ → Float) → ℕ → Event
  comparison a b m = printed (spaced (str_int m ∷ str (a m) ∷ str (b m) ∷ []))

  throughput_at-last_with :
      (m : ℕ) (rows : List (Row F)) (x : Float)
      → last_with m rows ≡ some x
      → throughput_at F strip percent m (entries rows []) ≡ some x
  unfolding throughput_at
  throughput_at-last_with m rows x h = rw (throughput_at-entries m rows [], h)

  print_rows-comparison :
      (orig rtop : List (Row F)) (a b : ℕ → Float) (percents : List ℕ) (t : List Event)
      → All (λ m. last_with m orig ≡ some (a m)) percents
      → All (λ m. last_with m rtop ≡ some (b m)) percents
      → for_each percents (print_row F strip percent (entries orig []) (entries rtop [])) t
        ≡ (ok tt, t ++ map (comparison a b) percents)
  unfolding for_each print_row
  print_rows-comparison orig rtop a b [] t ha hb = trace_eq (sym (append-nil t))
  print_rows-comparison orig rtop a b (m ∷ ms) t (hm, ha) (hn, hb) =
      rw (throughput_at-last_with m orig (a m) hm, throughput_at-last_with m rtop (b m) hn)
        (print_rows-comparison orig rtop a b ms _ ha hb ∙ trace_eq (append_assoc t _ _))

  -- With two tables of such rows, in which each percent asked for has a row in both, the script
  -- returns and prints a line for each percent, in order, with the throughputs of the last row of
  -- the percent in either table.
  pub compare_systems-rows :
      (orig rtop : List (Row F)) (a b : ℕ → Float) (percents : List ℕ)
      → All IsRow orig
      → All IsRow rtop
      → All (λ m. last_with m orig ≡ some (a m)) percents
      → All (λ m. last_with m rtop ≡ some (b m)) percents
      → compare_systems F strip percent (lines_of orig) (lines_of rtop) percents []
        ≡ (ok tt, map (comparison a b) percents)
  unfolding compare_systems
  compare_systems-rows orig rtop a b percents ho hr ha hb =
      rw (read_rows-entries orig [] ho, read_rows-entries rtop [] hr)
        (print_rows-comparison orig rtop a b percents [] ha hb)
