-- ===== src/Tests/Tables.antt =====
-- Rows of the tables, read by the scripts that compare and transform them.
use mathlib.Core.List.{map}
use skyros.Results.Compare.{split_text, nonnilext_percent}
use skyros.Results.Compare.Print.{compare_systems}
use skyros.Results.Compare.Tables.{row_line, Row, IsRow, comparison, lines_of, compare_systems-rows}
use skyros.Results.Transform.{
  transform, Percentile, IsPercentile, percentile_line, transform-percentiles,
}
use skyros.Results.Table.{printed, spaced}
use skyros.Results.Float.{thousandths}
use skyros.Base.Decimal.{int, digits_value, PyInt}
use skyros.Base.Text.Grep.{lacks, literal-Lacks, unlines}
use skyros.Base.Text.{starts_with, codes, Text, newline, tab}
use skyros.Base.{ℕ, ◌*◌, ◌≡◌, refl, true, some, List, [], ◌∷◌, ◌++◌, ◌==◌, if◌then◌else◌, ok, All}

abbrev row : Text → ℕ → Text → ℕ → Row thousandths
row label percent value number = record {
  label = label;
  write_per = PyInt.natural percent;
  printed_thrpt = value;
  thrpt = number;
  rest = codes "30 [5]";
}

abbrev two_rows : List (Row thousandths)
two_rows = row (codes "ee1") 1 (codes "5") 5000 ∷ row (codes "ee20") 20 (codes "7") 7000 ∷ []

abbrev slower_rows : List (Row thousandths)
slower_rows = row (codes "ee1") 1 (codes "4") 4000 ∷ row (codes "ee20") 20 (codes "6") 6000 ∷ []

abbrev read_at : ℕ → ℕ → ℕ → ℕ
read_at one other m = if m == 1 then one else other

IsRow-literal :
    (label value : Text) (percent number : ℕ)
    → lacks b' ' label ≡ true
    → lacks b' ' value ≡ true
    → lacks newline (row_line (row label percent value number)) ≡ true
    → nonnilext_percent label ≡ ok (PyInt.natural percent)
    → thousandths.float value ≡ some number
    → IsRow thousandths (λ s. s) nonnilext_percent (row label percent value number)
IsRow-literal label value percent number a b c d e = record {
  label_space = literal-Lacks b' ' label a;
  value_space = literal-Lacks b' ' value b;
  one_line = literal-Lacks newline _ c;
  percent_read = d;
  thrpt_read = e;
}

rows_read : All (IsRow thousandths (λ s. s) nonnilext_percent) two_rows
unfolding nonnilext_percent split_text starts_with digits_value int
rows_read = (
  IsRow-literal _ _ _ _ refl refl refl refl refl,
  (IsRow-literal _ _ _ _ refl refl refl refl refl, tt),
)

slower_rows_read : All (IsRow thousandths (λ s. s) nonnilext_percent) slower_rows
unfolding nonnilext_percent split_text starts_with digits_value int
slower_rows_read = (
  IsRow-literal _ _ _ _ refl refl refl refl refl,
  (IsRow-literal _ _ _ _ refl refl refl refl refl, tt),
)

compare_systems-rows_example :
    compare_systems thousandths
      (λ s. s)
      nonnilext_percent
      (lines_of slower_rows)
      (lines_of two_rows)
      (1 ∷ 20 ∷ [])
      []
    ≡ (
      ok tt,
      map
          (comparison thousandths
            (λ s. s)
            nonnilext_percent
            (read_at 4000 6000)
            (read_at 5000 7000))
          (1 ∷ 20 ∷ []),
    )
compare_systems-rows_example =
    compare_systems-rows thousandths (λ s. s) nonnilext_percent slower_rows two_rows
      (read_at 4000 6000) (read_at 5000 7000) (1 ∷ 20 ∷ []) slower_rows_read rows_read
      (refl, (refl, tt)) (refl, (refl, tt))

abbrev percentile : Text → Text → ℕ → Percentile thousandths
percentile p v n = record { percentile = p; value = v; number = n * 1000; thousandth = n }

IsPercentile-literal :
    (p v : Text) (n : ℕ)
    → lacks tab p ≡ true
    → lacks newline p ≡ true
    → lacks tab v ≡ true
    → lacks newline v ≡ true
    → thousandths.float v ≡ some (n * 1000)
    → thousandths.div (n * 1000) (thousandths.of_int 1000) ≡ some n
    → IsPercentile thousandths (percentile p v n)
IsPercentile-literal p v n a b c d e f = record {
  percentile_tab = literal-Lacks tab p a;
  percentile_newline = literal-Lacks newline p b;
  value_tab = literal-Lacks tab v c;
  value_newline = literal-Lacks newline v d;
  read = e;
  divided = f;
}

abbrev percentiles : List (Percentile thousandths)
percentiles =
    percentile (codes "50.0") (codes "30") 30 ∷ percentile (codes "99.0") (codes "41") 41 ∷ []

percentiles_read : All (IsPercentile thousandths) percentiles
unfolding digits_value
percentiles_read = (
  IsPercentile-literal _ _ 30 refl refl refl refl refl refl,
  (IsPercentile-literal _ _ 41 refl refl refl refl refl refl, tt),
)

transform-percentiles_example :
    transform thousandths (unlines (map (percentile_line thousandths) percentiles)) [] ≡ (
      ok tt,
      []
          ++ map
              (λ p. printed (spaced (p.percentile ∷ thousandths.str p.thousandth ∷ [])))
              percentiles,
    )
transform-percentiles_example = transform-percentiles thousandths percentiles [] percentiles_read
