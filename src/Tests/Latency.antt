-- ===== src/Tests/Latency.antt =====
-- Lines of parse.py, with thousandths for floats.
use mathlib.Core.List.{map}
use skyros.Base.Text.{tab, codes}
use skyros.Base.Text.Grep.{literal-Lacks}
use skyros.Results.Float.{thousandths}
use skyros.Base.Decimal.{digits_value}
use skyros.Results.Latency.Mixed.{
  collect_lines-values, counted, collect_lines-nonnilextwrite, entered, text_of, IsLine, Line,
}
use skyros.Results.Latency.{values_of, collect_lines, Dict}
use skyros.Base.{◌≡◌, refl, [], ◌∷◌, ok}

abbrev non_nilext_line : Line thousandths
non_nilext_line = record {
  op = codes "nonnilextwrite";
  metric = codes "avg";
  value = codes "7";
  number = 7000;
}

abbrev read_line : Line thousandths
read_line = record { op = codes "read"; metric = codes "avg"; value = codes "3"; number = 3000 }

IsLine-non_nilext : IsLine thousandths non_nilext_line
unfolding digits_value
IsLine-non_nilext = record {
  op_lacks = literal-Lacks tab (codes "nonnilextwrite") refl;
  metric_lacks = literal-Lacks tab (codes "avg") refl;
  value_lacks = literal-Lacks tab (codes "7") refl;
  read = refl;
}

IsLine-read : IsLine thousandths read_line
unfolding digits_value
IsLine-read = record {
  op_lacks = literal-Lacks tab (codes "read") refl;
  metric_lacks = literal-Lacks tab (codes "avg") refl;
  value_lacks = literal-Lacks tab (codes "3") refl;
  read = refl;
}

collect_lines-values_example :
    (collect_lines thousandths
        (codes "read")
        (map (text_of thousandths) (non_nilext_line ∷ read_line ∷ []))
        []
        []
      ≡ (ok (entered thousandths (codes "read") (non_nilext_line ∷ read_line ∷ []) []), []))
    × (values_of thousandths
          (codes "avg")
          (entered thousandths (codes "read") (non_nilext_line ∷ read_line ∷ []) [])
        ≡ counted thousandths (codes "read") (codes "avg") (non_nilext_line ∷ read_line ∷ []))
collect_lines-values_example =
    collect_lines-values thousandths (codes "read") (codes "avg") (non_nilext_line ∷ read_line ∷ [])
      [] (IsLine-non_nilext, (IsLine-read, tt))

collect_lines-nonnilextwrite_example :
    (dict : Dict thousandths) × ((collect_lines thousandths
          (codes "nilextwrite")
          (map (text_of thousandths) (non_nilext_line ∷ []))
          []
          []
        ≡ (ok dict, []))
      × (values_of thousandths (codes "avg") dict ≡ 7000 ∷ []))
collect_lines-nonnilextwrite_example =
    collect_lines-nonnilextwrite thousandths (codes "avg") (non_nilext_line ∷ []) []
      (IsLine-non_nilext, tt) ((refl, refl), tt)
