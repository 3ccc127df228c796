-- ===== src/Figures.antt =====
-- The figures of experiments/results_repro: draw.py of rocksdb, commutativity-compat,
-- commutativity-fs and commutativity-kv, and draw_thrpt.py of ycsb, one program over five figures.
-- The drawing library zplot is a parameter: a script is the sequence of its calls.
pub mod Scripts
use mathlib.Core.List.{map}
use skyros.Base.Text.{codes, Text}
use skyros.Base.{
  index_error, get_elem?, PyError, or_raise, ℕ, zero, suc, ◌+◌, ◌-◌, ◌*◌, ◌/◌, ◌%◌, ◌≤◌, ◌<◌, ◌≡◌,
  refl, sym, ap, ◌∙◌, ◌≢◌, ◌⊎◌, inl, inr, Bool, true, false, not, ◌&&◌, ◌||◌, Option, none, some,
  List, [], ◌∷◌, ◌++◌, arith, ltb, leb, ◌==◌, if◌then◌else◌, Bool-cases, Result, ok, err, All,
  length,
}
use skyros.Base.Script.{Script, pure, raise, lift, emit, verify, ◌>>=◌, ◌>>◌, for_each}

-- A number that is passed to the library, in hundredths.
pub data Hundredths : Type 0 where
  plus : ℕ → Hundredths
  minus : ℕ → Hundredths

-- A number that is written without decimals.
abbrev pub whole : ℕ → Hundredths
whole n = Hundredths.plus (n * 100)

abbrev pub minus_whole : ℕ → Hundredths
minus_whole n = Hundredths.minus (n * 100)

-- `fillstyle`, `fillsize` and `fillskip` of a bar that is not solid.
pub record Pattern : Type 0 where
  pub fillstyle : Text
  pub fillsize : Hundredths
  pub fillskip : ℕ

-- The bars of one table: its index in `tables`, and how they are filled and named.
pub record Bars : Type 0 where
  pub index : ℕ
  pub fillcolor : Text
  pub pattern : Option Pattern
  pub legendtext : Text

-- The texts at the points of a table.
pub record Labels : Type 0 where
  pub index : ℕ
  pub yfield : Text
  pub labelfield : Text
  pub labelanchor : Text
  pub labelsize : ℕ
  pub labelshift : Hundredths × Hundredths

-- The axis of the throughputs: `yauto` from 0 on, and its title.
pub record Axis : Type 0 where
  pub last : ℕ
  pub step : ℕ
  pub ytitle : Text
  pub ytitleshift : Hundredths × Hundredths
  pub size : ℕ

-- `L.draw`; `skipnext`, `width` and `height` are the same in all figures.
pub record Legend : Type 0 where
  pub legend_coord : Hundredths × Hundredths
  pub skipspace : ℕ
  pub fontsize : ℕ

-- What a script does: a print, or a call of the library. The bars of a call are those of a table,
-- with its field c0 as the position, its field c3 as the height, and a width. The arguments that are
-- the same in all five scripts are left out.
pub data Call : Type 0 where
  usage : Text → Call
  postscript : Text → ℕ × ℕ → Call
  drawable : ℕ → ℕ → ℕ × ℕ → ℕ × ℕ → Call
  table : Text → Call
  addcolumn : Text → Text → Hundredths → Call
  axis_y : Axis → Call
  axis_x : Call
  points : Text → Labels → Call
  verticalbars : Text → ℕ → Bars → Call
  legend : Legend → Call
  render : Call

-- What the five scripts differ in.
pub record Figure : Type 0 where
  pub codes_drawn : List Text
  pub eps : Text
  pub paper : ℕ × ℕ
  pub xmax : ℕ
  pub ymax : ℕ
  pub coord : ℕ × ℕ
  pub dimensions : ℕ × ℕ
  pub axis : Axis
  pub names : List Labels
  pub bars : List Bars
  pub ratios : List Labels
  pub legend_at : Legend

-- `bw`
abbrev pub bw : ℕ
bw = 8

-- the body of `for code in codes`
unfoldable pub read_table : Text → Text → Script Call (Unit {0})
read_table indir code =
    let infile = indir ++ (codes "/" ++ code) in
    do
      emit (Call.table infile)
      emit (Call.addcolumn infile (codes "zero") (Hundredths.plus 10))
      emit (Call.addcolumn infile (codes "one") (whole 425))

-- `tables[i]`, by the file that the table is read from
abbrev pub tables : Text → List Text → List Text
tables indir names = map (λ code. indir ++ (codes "/" ++ code)) names

unfoldable pub draw_points : List Text → Labels → Script Call (Unit {0})
draw_points read l = do
  infile ← lift (or_raise (get_elem? read l.index) index_error)
  emit (Call.points infile l)

unfoldable pub draw_bars : List Text → Bars → Script Call (Unit {0})
draw_bars read b = do
  infile ← lift (or_raise (get_elem? read b.index) index_error)
  emit (Call.verticalbars infile bw b)

-- what the script does with its directory
unfoldable pub draw_in : Figure → Text → Script Call (Unit {0})
draw_in f indir = do
  emit (Call.postscript (indir ++ (codes "/" ++ f.eps)) f.paper)
  emit (Call.drawable f.xmax f.ymax f.coord f.dimensions)
  for_each f.codes_drawn (read_table indir)
  emit (Call.axis_y f.axis)
  emit Call.axis_x
  for_each f.names (draw_points (tables indir f.codes_drawn))
  for_each f.bars (draw_bars (tables indir f.codes_drawn))
  for_each f.ratios (draw_points (tables indir f.codes_drawn))
  emit (Call.legend f.legend_at)
  emit Call.render

-- the whole script, on `sys.argv`
unfoldable pub draw : Figure → List Text → Script Call (Unit {0})
draw f (program ∷ indir ∷ []) = draw_in f indir
draw f argv = do emit (Call.usage (codes "Usage: program indir")); raise PyError.system_exit
