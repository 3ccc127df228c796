-- ===== src/Results/Single/Points.antt =====
-- The points of the tables, from the arguments of the scripts.
use skyros.Base.Decimal.{str_int}
use skyros.Results.Table.{base_file}
use mathlib.Core.List.{map}
use skyros.Base.Text.{codes, ◌=text◌, Text}
use skyros.Base.{
  keep, assertion_error, ℕ, Bool, not, ◌&&◌, List, [], ◌∷◌, ◌++◌, ◌==◌, if◌then◌else◌, Result, ok,
  err,
}
use skyros.Base.Checked.{◌>>=◌}
use skyros.Results.Single.{Point}

-- one run for each of the workloads, with ten clients
abbrev pub workload_points : Text → Text → List Text → List Point
workload_points d code workloads =
    map
      (λ workload. record {
        label = workload;
        client = 10;
        resfiles = base_file d workload code 10 (codes "1") ∷ [];
      })
      workloads

-- micro-nilext-nonnilext/calc.py
abbrev pub nilext_nonnilext : Text → Text → List Point
nilext_nonnilext code d = workload_points d code (
    codes "ee1"
    ∷ codes "ee2"
    ∷ codes "ee5"
    ∷ codes "ee10"
    ∷ codes "ee20"
    ∷ codes "ee40"
    ∷ codes "ee100"
    ∷ [])

-- micro-mixed-all/calcexp2.py
abbrev pub mixed_all : Text → Text → List Point
mixed_all code d = workload_points d code (
    codes "mw0.1.uniform"
    ∷ codes "mw0.3.uniform"
    ∷ codes "mw0.5.uniform"
    ∷ codes "mw0.7.uniform"
    ∷ codes "mw0.9.uniform"
    ∷ [])

-- the numbers of clients of micro-nilext-only/calcvrtput.py, by the code
unfoldable pub nilext_only_clients : Text → Result (List ℕ)
nilext_only_clients code =
    if code =text codes "orignobatch"
    then ok (2 ∷ 5 ∷ 10 ∷ 15 ∷ 20 ∷ 40 ∷ [])
    else if code =text codes "rtop"
    then ok (2 ∷ 5 ∷ 12 ∷ 15 ∷ 25 ∷ 35 ∷ 50 ∷ 70 ∷ 100 ∷ [])
    else if code =text codes "orig"
    then ok (2 ∷ 5 ∷ 12 ∷ 25 ∷ 35 ∷ 40 ∷ 50 ∷ 70 ∷ 100 ∷ [])
    else err assertion_error

-- a run that the loop leaves out
abbrev pub is_left_out : Text → ℕ → Text → Bool
is_left_out code c run_id = (run_id =text codes "5") && ((code =text codes "orig") && (c == 110))

-- micro-nilext-only/calcvrtput.py
unfoldable pub nilext_only : Text → Text → Result (List Point)
nilext_only code d = do
  clients ← nilext_only_clients code
  ok (
      map
        (λ c. record {
          label = str_int c;
          client = c;
          resfiles =
              map (base_file d (codes "t") code c)
                (keep (λ run_id. not (is_left_out code c run_id)) (codes "1" ∷ []));
        })
        clients)

abbrev pub fractions : List Text
fractions =
    codes "0.01"
    ∷ codes "0.02"
    ∷ codes "0.05"
    ∷ codes "0.1"
    ∷ codes "0.2"
    ∷ codes "0.5"
    ∷ codes "0.75"
    ∷ codes "1.0"
    ∷ []

-- `"r.{4}.{0}.vr.…"`
abbrev pub read_latest_file : Text → Text → Text → Text → Text → Text
read_latest_file d code run_id delay fraction =
    base_file d (codes "r." ++ (delay ++ (codes "." ++ fraction))) code 10 run_id

-- micro-read-latest/calc.py
abbrev pub read_latest : Text → Text → Text → List Point
read_latest code d delay =
    map
      (λ fraction. record {
        label = fraction;
        client = 10;
        resfiles = read_latest_file d code (codes "1") delay fraction ∷ [];
      })
      fractions

-- micro-read-latest/calc_orig.py
abbrev pub read_latest_orig : Text → Text → List Point
read_latest_orig code d =
    map
      (λ fraction. record {
        label = fraction;
        client = 10;
        resfiles =
            map (λ delay. read_latest_file d code (codes "1") delay fraction)
              (codes "100" ∷ codes "200" ∷ codes "1000" ∷ []);
      })
      fractions
