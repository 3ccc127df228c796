-- ===== src/Deploy/Context.antt =====
-- The command line of experiments/remote-throughput.py, its check, and the name of the output
-- file. The integers other than the time and the run are taken as natural numbers, and the
-- window fraction, a float that is only printed, as the text that `str` gives for it.
pub mod Names
use skyros.Base.Checked.{◌>>◌, ◌>>=◌}
use skyros.Base.Decimal.{str_int, PyInt}
use skyros.Base.Text.{one_of, ◌=text◌, codes, join, Text}
use skyros.Base.Checked.{guard}
use skyros.Base.{
  assertion_error, ℕ, zero, suc, ◌+◌, ◌-◌, ◌*◌, ◌/◌, ◌%◌, ◌≤◌, ◌<◌, ◌≡◌, refl, sym, ap, ◌∙◌, ◌≢◌,
  ◌⊎◌, inl, inr, Bool, true, false, not, ◌&&◌, ◌||◌, Option, none, some, List, [], ◌∷◌, ◌++◌, arith,
  ltb, leb, ◌==◌, if◌then◌else◌, Bool-cases, Result, ok, err, All, length,
}

pub record Context : Type 0 where
  pub target_system_name : Text
  pub medium : Text
  pub code : Text
  pub time : PyInt
  pub run : PyInt
  pub cluster : Text
  pub sync : Text
  pub user : Text
  pub load_afresh : Bool
  pub workload : Text
  pub sync_rep_factor : ℕ
  pub num_nodes : ℕ
  pub client_delay : ℕ
  pub num_clients : ℕ
  pub geo : Bool
  pub leader_reads : Text
  pub batch : ℕ
  pub workload_trace_prefix : Text
  pub readwindow : ℕ
  pub windowfrac : Text

-- `n > 0` and `n >= 0`
abbrev pub is_positive : PyInt → Bool
is_positive (PyInt.natural n) = ltb 0 n
is_positive (PyInt.negative n) = false

abbrev pub is_natural : PyInt → Bool
is_natural (PyInt.natural n) = true
is_natural (PyInt.negative n) = n == 0

-- `str(n)`
abbrev pub str_pyint : PyInt → Text
str_pyint (PyInt.natural n) = str_int n
str_pyint (PyInt.negative n) = if n == 0 then str_int 0 else b'-' ∷ str_int n

abbrev pub all_codes : List Text
all_codes = codes "orig" ∷ codes "rtop" ∷ codes "curp" ∷ codes "rtopcomm" ∷ []

abbrev pub all_workloads : List Text
all_workloads =
    codes "t"
    ∷ codes "w"
    ∷ codes "a"
    ∷ codes "b"
    ∷ codes "c"
    ∷ codes "d"
    ∷ codes "f"
    ∷ codes "m"
    ∷ codes "e"
    ∷ codes "n"
    ∷ codes "r"
    ∷ codes "fs"
    ∷ codes "fsar"
    ∷ codes "nilz"
    ∷ codes "nilu"
    ∷ codes "compat"
    ∷ codes "compatconflict"
    ∷ codes "nc"
    ∷ []

abbrev assert : Bool → Result (Unit {0})
assert b = guard b assertion_error

unfoldable pub check_context_sanity : Context → Result (Unit {0})
check_context_sanity c = do
  assert (one_of c.target_system_name (codes "vr" ∷ []))
  assert (one_of c.medium (codes "data" ∷ []))
  assert (one_of c.code all_codes)
  assert (is_positive c.time)
  assert (is_natural c.run)
  assert (one_of c.cluster (codes "us-east-1" ∷ []))
  assert (one_of c.sync (codes "yes" ∷ codes "no" ∷ []))
  assert (one_of c.leader_reads (codes "yes" ∷ codes "no" ∷ []))
  assert (one_of c.user (codes "ubuntu" ∷ codes "sarthakm" ∷ []))
  assert (one_of c.workload all_workloads)
  (if (c.code =text codes "orig") && (c.sync =text codes "yes")
      then assert (c.leader_reads =text codes "yes")
      else ok tt)

-- The fields of the name behind the workload and the code.
abbrev pub suffix : Context → Text
suffix c = join (codes ".") (
    c.medium
    ∷ c.sync
    ∷ str_int c.sync_rep_factor
    ∷ c.leader_reads
    ∷ str_int c.client_delay
    ∷ str_int c.num_clients
    ∷ str_pyint c.run
    ∷ [])

abbrev pub named : Context → Text → Text → Text
named c workload code =
    workload
    ++ (codes "." ++ (c.target_system_name ++ (codes "." ++ (code ++ (codes "." ++ suffix c)))))

-- the workloads whose trace has a name of its own
abbrev pub is_traced : Text → Bool
is_traced w = (w =text codes "m") || ((w =text codes "e") || (w =text codes "n"))

-- The name of the output file, by the assignments in their order.
unfoldable pub outfile : Context → Text
outfile c =
    let plain = named c c.workload c.code in
    let batched = if c.batch == 1 then named c c.workload (c.code ++ codes "nobatch") else plain in
    let traced =
      if is_traced c.workload
      then named c (c.workload ++ c.workload_trace_prefix) c.code
      else batched in
    if c.workload =text codes "r"
    then named c
        (c.workload ++ (codes "." ++ (str_int c.readwindow ++ (codes "." ++ c.windowfrac)))) c.code
    else traced

unfoldable pub result_dir : Context → Text
unfolding outfile
result_dir c = outfile c ++ codes ".dir"
