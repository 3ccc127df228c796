-- ===== src/Figures/Scripts.antt =====
-- The five scripts of figures.
use skyros.Figures.{
  Hundredths, whole, minus_whole, Pattern, Bars, Labels, Axis, Legend, Call, Figure, draw,
}
use skyros.Base.Text.{codes, Text}
use skyros.Base.{ℕ, none, some, List, [], ◌∷◌}
use skyros.Base.Script.{Script}

-- the throughputs at the bars
abbrev throughputs : ℕ → ℕ → Text → Hundredths → ℕ → Axis
throughputs last step ytitle shift size = record {
  last = last;
  step = step;
  ytitle = ytitle;
  ytitleshift = (shift, minus_whole 2);
  size = size;
}

-- the names under the bars, field c1
abbrev name_labels : ℕ → ℕ → Hundredths → Labels
name_labels index size shift = record {
  index = index;
  yfield = codes "zero";
  labelfield = codes "c1";
  labelanchor = codes "c,c";
  labelsize = size;
  labelshift = (shift, minus_whole 13);
}

-- the ratios over the bars, field c2
abbrev ratio_labels : ℕ → ℕ → Hundredths × Hundredths → Labels
ratio_labels index size shift = record {
  index = index;
  yfield = codes "c3";
  labelfield = codes "c2";
  labelanchor = codes "l,c";
  labelsize = size;
  labelshift = shift;
}

abbrev legend_of : Hundredths → ℕ → ℕ → ℕ → Legend
legend_of x y skipspace fontsize = record {
  legend_coord = (x, whole y);
  skipspace = skipspace;
  fontsize = fontsize;
}

abbrev solid : ℕ → Text → Text → Bars
solid index color text = record {
  index = index;
  fillcolor = color;
  pattern = none;
  legendtext = text;
}

abbrev lined : ℕ → Pattern → Text → Bars
lined index pattern text = record {
  index = index;
  fillcolor = codes "black";
  pattern = some pattern;
  legendtext = text;
}

abbrev dline1 : Pattern
dline1 = record { fillstyle = codes "dline1"; fillsize = Hundredths.plus 125; fillskip = 5 }

abbrev dline12 : Pattern
dline12 = record { fillstyle = codes "dline12"; fillsize = whole 1; fillskip = 8 }

-- rocksdb/draw.py
abbrev pub rocksdb_figure : Figure
rocksdb_figure = record {
  codes_drawn = codes "orig" ∷ codes "rtop" ∷ [];
  eps = codes "rocks.eps";
  paper = (220, 170);
  xmax = 64;
  ymax = 120;
  coord = (55, 25);
  dimensions = (170, 118);
  axis = throughputs 110 20 (codes "Throughput (Kops/sec)") (minus_whole 5) 14;
  names = name_labels 0 14 (whole 22) ∷ [];
  bars = solid 0 (codes "gray") (codes "Paxos") ∷ lined 1 dline1 (codes "Skyros") ∷ [];
  ratios =
      ratio_labels 0 14 (minus_whole 10, whole 12)
      ∷ ratio_labels 1 14 (minus_whole 10, whole 12)
      ∷ [];
  legend_at = legend_of (whole 0) 135 70 14;
}

-- commutativity-compat/draw.py
abbrev pub compat_figure : Figure
compat_figure = record {
  codes_drawn = codes "orig" ∷ codes "curp" ∷ codes "rtop" ∷ codes "rtopcomm" ∷ [];
  eps = codes "compat.eps";
  paper = (340, 170);
  xmax = 84;
  ymax = 120;
  coord = (50, 27);
  dimensions = (290, 121);
  axis = throughputs 110 20 (codes "Throughput (Kops/sec)") (minus_whole 2) 14;
  names = name_labels 0 14 (whole 36) ∷ [];
  bars =
      solid 0 (codes "gray") (codes "Paxos")
      ∷ solid 1 (codes "black") (codes "Curp-c")
      ∷ lined 2 dline1 (codes "Skyros")
      ∷ lined 3 dline12 (codes "Skyros-comm")
      ∷ [];
  ratios =
      ratio_labels 0 13 (minus_whole 13, whole 12)
      ∷ ratio_labels 1 13 (minus_whole 13, whole 12)
      ∷ ratio_labels 2 13 (minus_whole 13, whole 12)
      ∷ ratio_labels 3 13 (minus_whole 13, whole 12)
      ∷ [];
  legend_at = legend_of (minus_whole 3) 135 63 14;
}

-- commutativity-fs/draw.py
abbrev pub fs_figure : Figure
fs_figure = record {
  codes_drawn = codes "orig" ∷ codes "curp" ∷ codes "rtop" ∷ [];
  eps = codes "fscurp.eps";
  paper = (200, 170);
  xmax = 54;
  ymax = 50;
  coord = (55, 27);
  dimensions = (150, 121);
  axis = throughputs 50 10 (codes "Throughput (Kops/sec)") (minus_whole 5) 14;
  names = name_labels 0 14 (whole 0) ∷ name_labels 1 14 (whole 0) ∷ name_labels 2 14 (whole 0) ∷ [];
  bars =
      solid 0 (codes "gray") (codes "Paxos")
      ∷ lined 2 dline1 (codes "Skyros")
      ∷ solid 1 (codes "black") (codes "Curp-c")
      ∷ [];
  ratios =
      ratio_labels 0 14 (minus_whole 10, whole 12)
      ∷ ratio_labels 1 14 (minus_whole 10, whole 12)
      ∷ ratio_labels 2 14 (minus_whole 10, whole 12)
      ∷ [];
  legend_at = legend_of (whole 0) 135 70 14;
}

-- commutativity-kv/draw.py
abbrev pub kv_figure : Figure
kv_figure = record {
  codes_drawn = codes "orig" ∷ codes "curp" ∷ codes "rtop" ∷ [];
  eps = codes "kvcurp.eps";
  paper = (270, 170);
  xmax = 66;
  ymax = 120;
  coord = (55, 27);
  dimensions = (220, 121);
  axis = throughputs 110 20 (codes "Throughput (Kops/sec)") (minus_whole 5) 14;
  names = name_labels 0 14 (whole 26) ∷ [];
  bars =
      solid 0 (codes "gray") (codes "Paxos")
      ∷ solid 1 (codes "black") (codes "Curp-c")
      ∷ lined 2 dline1 (codes "Skyros")
      ∷ [];
  ratios =
      ratio_labels 0 14 (minus_whole 14, whole 12)
      ∷ ratio_labels 1 14 (minus_whole 14, whole 12)
      ∷ ratio_labels 2 14 (minus_whole 14, whole 12)
      ∷ [];
  legend_at = legend_of (whole 0) 135 70 14;
}

-- ycsb/draw_thrpt.py
abbrev pub ycsb_figure : Figure
ycsb_figure = record {
  codes_drawn = codes "orig" ∷ codes "rtop" ∷ [];
  eps = codes "ycsb-thrpt.eps";
  paper = (320, 170);
  xmax = 165;
  ymax = 140;
  coord = (56, 30);
  dimensions = (270, 112);
  axis = throughputs 130 30 (codes "Throughput (Kops/s)") (Hundredths.minus 180) 16;
  names = name_labels 0 16 (whole 7) ∷ [];
  bars = solid 0 (codes "gray") (codes "Paxos") ∷ lined 1 dline1 (codes "Skyros") ∷ [];
  ratios = ratio_labels 1 16 (minus_whole 17, whole 16) ∷ [];
  legend_at = legend_of (whole 0) 165 70 16;
}

unfoldable pub rocksdb_draw : List Text → Script Call (Unit {0})
rocksdb_draw = draw rocksdb_figure

unfoldable pub compat_draw : List Text → Script Call (Unit {0})
compat_draw = draw compat_figure

unfoldable pub fs_draw : List Text → Script Call (Unit {0})
fs_draw = draw fs_figure

unfoldable pub kv_draw : List Text → Script Call (Unit {0})
kv_draw = draw kv_figure

unfoldable pub ycsb_draw : List Text → Script Call (Unit {0})
ycsb_draw = draw ycsb_figure
