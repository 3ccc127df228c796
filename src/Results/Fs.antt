-- ===== src/Results/Fs.antt =====
-- commutativity-fs/calc.py: one workload, three codes, and a table of one bar for each.
pub mod Table
use skyros.Base.Decimal.{str_int}
use skyros.Results.Average.{mean_of}
use skyros.Results.Single.{point_runs, Point}
use skyros.Base.Text.{newline, codes, Text}
use skyros.Results.Float.{Floats}
use skyros.Results.Table.{
  show_list, tabbed, spaced, lookup, base_file, Event, printed, opened, wrote, closed,
}
use skyros.Base.{
  zero_division, key_error, or_raise, ℕ, zero, suc, ◌+◌, ◌-◌, ◌*◌, ◌/◌, ◌%◌, ◌≤◌, ◌<◌, ◌≡◌, refl,
  sym, ap, ◌∙◌, ◌≢◌, ◌⊎◌, inl, inr, Bool, true, false, not, ◌&&◌, ◌||◌, Option, none, some, List,
  [], ◌∷◌, ◌++◌, arith, ltb, leb, ◌==◌, if◌then◌else◌, Bool-cases, Result, ok, err, All, length,
}
use skyros.Base.Script.{Script, pure, raise, lift, emit, verify, ◌>>=◌, ◌>>◌, for_each}

abbrev pub codes_of_fs : List Text
codes_of_fs = codes "orig" ∷ codes "curp" ∷ codes "rtop" ∷ []

abbrev pub codenames : List (Text × Text)
codenames =
    (codes "orig", codes "Paxos")
    ∷ (codes "curp", codes "Curp")
    ∷ (codes "rtop", codes "Skyros")
    ∷ []

-- the result file of a code, for four clients
abbrev pub fs_point : Text → Text → Point
fs_point d code = record {
  label = code;
  client = 4;
  resfiles = base_file d (codes "fs") code 4 (codes "1") ∷ [];
}

-- `sorted` is Python's, on floats
module _ (F : Floats) (sorted : List F.Float → List F.Float) where
  open F use {Float, of_int, div, round, str}

  -- the body of `for code in codes`, up to the entry of `throughput_dict`
  unfoldable pub measure_code : (Text → Text) → Text → Text → Script Event Float
  measure_code cat d code = do
    totals ← point_runs F cat (fs_point d code)
    tput ← lift (mean_of F totals.0)
    kops ← lift (or_raise (div tput (of_int 1000)) zero_division)
    latency ← lift (mean_of F totals.1)
    emit (printed (spaced (code ∷ str kops ∷ str latency ∷ show_list F (sorted totals.0) ∷ [])))
    pure kops

  abbrev pub Throughput : Type 0
  Throughput = List (Text × Float)

  unfoldable pub measure_all :
      (Text → Text) → Text → List Text → Throughput → Script Event Throughput
  measure_all cat d [] dict = pure dict
  measure_all cat d (code ∷ rest) dict = do
    kops ← measure_code cat d code
    measure_all cat d rest ((code, kops) ∷ dict)

  -- the body of the second loop
  unfoldable pub write_code : Throughput → Text → ℕ → Script Event (Unit {0})
  write_code dict code curx = do
    tput ← lift (or_raise (lookup code dict) key_error)
    base ← lift (or_raise (lookup (codes "orig") dict) key_error)
    ratio ← lift (or_raise (div tput base) zero_division)
    let normalized = round ratio 1
    emit (opened code)
    name ← lift (or_raise (lookup code codenames) key_error)
    emit
        (wrote code (tabbed (str_int curx ∷ name ∷ str normalized ∷ str tput ∷ []) ++ newline ∷ []))
    emit (closed code)

  abbrev pub bar_width : ℕ
  bar_width = 8

  unfoldable pub write_codes : Throughput → List Text → ℕ → Script Event (Unit {0})
  write_codes dict [] curx = pure tt
  write_codes dict (code ∷ rest) curx = do
    write_code dict code curx
    write_codes dict rest (curx + bar_width * 2)

  -- the whole script
  unfoldable pub fs_calc : (Text → Text) → Text → Script Event (Unit {0})
  fs_calc cat d = do dict ← measure_all cat d codes_of_fs []; write_codes dict codes_of_fs 12
