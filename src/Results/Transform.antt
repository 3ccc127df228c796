-- ===== src/Results/Transform.antt =====
-- transform.py of ycsb and commutativity-kv, one script twice: a file of percentiles, as parse.py
-- has written it, with its values in thousands.
use mathlib.Core.List.{map}
use skyros.Base.Text.Grep.{remove_newline, file_lines-line, unlines}
use skyros.Base.Text.{
  split-Lacks, split-append, remove_char, tab, split, file_lines, Text, Lacks, newline,
}
use skyros.Results.Float.{Floats}
use skyros.Results.Table.{spaced, Event, printed}
use skyros.Base.{
  All-append, append_assoc, zero_division, value_error, index_error, get_elem?, append-nil,
  or_raise, ◌≡◌, sym, ◌∙◌, ◌≢◌, some, List, [], ◌∷◌, ◌++◌, arith, ok, All,
}
use skyros.Base.Script.{trace_eq, Script, lift, emit, ◌>>=◌, for_each}

module _ (F : Floats) where
  open F use {float, of_int, div, str}

  -- the body of `for line in f`
  unfoldable pub transform_line : Text → Script Event (Unit {0})
  transform_line line =
      let fields = split tab (remove_char newline line) in
      do
        first ← lift (or_raise (get_elem? fields 0) index_error)
        second ← lift (or_raise (get_elem? fields 1) index_error)
        value ← lift (or_raise (float second) value_error)
        thousandth ← lift (or_raise (div value (of_int 1000)) zero_division)
        emit (printed (spaced (first ∷ str thousandth ∷ [])))

  -- the whole script, over what the file holds
  unfoldable pub transform : Text → Script Event (Unit {0})
  transform content = for_each (file_lines content) transform_line

  -- A percentile as parse.py writes it, with the number that its value is read as, over 1000.
  pub record Percentile : Type 0 where
    pub percentile : Text
    pub value : Text
    pub number : F.Float
    pub thousandth : F.Float

  pub record IsPercentile (p : Percentile) : Type 0 where
    pub percentile_tab : Lacks tab p.percentile
    pub percentile_newline : Lacks newline p.percentile
    pub value_tab : Lacks tab p.value
    pub value_newline : Lacks newline p.value
    pub read : float p.value ≡ some p.number
    pub divided : div p.number (of_int 1000) ≡ some p.thousandth

  abbrev pub percentile_line : Percentile → Text
  percentile_line p = p.percentile ++ tab ∷ p.value

  percentile_line-Lacks : (p : Percentile) → IsPercentile p → Lacks newline (percentile_line p)
  percentile_line-Lacks p h =
      All-append (λ c. c ≢ newline) p.percentile (tab ∷ p.value) h.percentile_newline
        (omega arith, h.value_newline)

  transform_line-percentile :
      (p : Percentile) (t : List Event)
      → IsPercentile p
      → transform_line (percentile_line p ++ newline ∷ []) t
        ≡ (ok tt, t ++ printed (spaced (p.percentile ∷ str p.thousandth ∷ [])) ∷ [])
  unfolding transform_line
  transform_line-percentile p t h = rw (
    remove_newline (percentile_line p) (percentile_line-Lacks p h),
    split-append tab p.percentile p.value h.percentile_tab,
    split-Lacks tab p.value h.value_tab,
    h.read,
    h.divided,
  )

  -- On a file with a percentile and a value in each line, as parse.py writes it, the script returns
  -- and prints a line for each, in order: the percentile and the value over 1000.
  pub transform-percentiles :
      (ps : List Percentile) (t : List Event)
      → All IsPercentile ps
      → transform (unlines (map percentile_line ps)) t
        ≡ (ok tt, t ++ map (λ p. printed (spaced (p.percentile ∷ str p.thousandth ∷ []))) ps)
  unfolding transform unlines file_lines for_each
  transform-percentiles [] t h = trace_eq (sym (append-nil t))
  transform-percentiles (p ∷ ps) t (hp, h) =
      rw
        (file_lines-line (percentile_line p) (unlines (map percentile_line ps))
          (percentile_line-Lacks p hp))
        (rw (transform_line-percentile p t hp)
          (transform-percentiles ps _ h ∙ trace_eq (append_assoc t _ _)))

-- the copy of commutativity-kv
abbrev pub kv_transform : (F : Floats) → Text → Script Event (Unit {0})
kv_transform = transform
