-- ===== src/Results/Calc/Scripts.antt =====
-- The four calc.py as configurations of `calc`.
use skyros.Base.{List, [], ◌∷◌}
use skyros.Base.Script.{Script}
use skyros.Base.Text.{Text, codes}
use skyros.Results.Float.{Floats}
use skyros.Results.Table.{Event, Mismatch}
use skyros.Results.Calc.{Config, calc}

-- commutativity-compat/calc.py
abbrev pub compat : Config
compat = record {
  client = 10;
  workloads = codes "compat" ∷ codes "compatconflict" ∷ [];
  codenames = codes "orig" ∷ codes "curp" ∷ codes "rtop" ∷ codes "rtopcomm" ∷ [];
  labels = (codes "compat", codes "no-conflict") ∷ (codes "compatconflict", codes "zipfian") ∷ [];
  run_ids = codes "1" ∷ [];
  baseline = codes "orig";
  mismatch = Mismatch.stop;
  curx = 10;
  bar_width = 8;
}

-- commutativity-kv/calc.py
abbrev pub kv : Config
kv = record {
  client = 10;
  workloads = codes "w" ∷ codes "nilz" ∷ [];
  codenames = codes "orig" ∷ codes "curp" ∷ codes "rtop" ∷ [];
  labels = (codes "w", codes "no-conflict") ∷ (codes "nilz", codes "zipfian") ∷ [];
  run_ids = codes "1" ∷ [];
  baseline = codes "orig";
  mismatch = Mismatch.skip;
  curx = 8;
  bar_width = 8;
}

abbrev ycsb_labels : List (Text × Text)
ycsb_labels =
    (codes "w", codes "LOAD")
    ∷ (codes "a", codes "A")
    ∷ (codes "b", codes "B")
    ∷ (codes "c", codes "C")
    ∷ (codes "d", codes "D")
    ∷ (codes "f", codes "F")
    ∷ []

-- rocksdb/calc.py
abbrev pub rocksdb : Config
rocksdb = record {
  client = 10;
  workloads = codes "w" ∷ codes "a" ∷ [];
  codenames = codes "orig" ∷ codes "rtop" ∷ [];
  labels = ycsb_labels;
  run_ids = codes "1" ∷ [];
  baseline = codes "orig";
  mismatch = Mismatch.stop;
  curx = 16;
  bar_width = 8;
}

-- ycsb/calc.py
abbrev pub ycsb : Config
ycsb = record {
  client = 10;
  workloads = codes "w" ∷ codes "a" ∷ codes "b" ∷ codes "c" ∷ codes "d" ∷ codes "f" ∷ [];
  codenames = codes "orig" ∷ codes "rtop" ∷ [];
  labels = ycsb_labels;
  run_ids = codes "1" ∷ [];
  baseline = codes "orig";
  mismatch = Mismatch.stop;
  curx = 16;
  bar_width = 8;
}

module _ (F : Floats) (cat : Text → Text) (d : Text) where
  unfoldable pub compat_calc : Script Event (Unit {0})
  compat_calc = calc F cat d compat

  unfoldable pub kv_calc : Script Event (Unit {0})
  kv_calc = calc F cat d kv

  unfoldable pub rocksdb_calc : Script Event (Unit {0})
  rocksdb_calc = calc F cat d rocksdb

  unfoldable pub ycsb_calc : Script Event (Unit {0})
  ycsb_calc = calc F cat d ycsb
