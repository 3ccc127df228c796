-- ===== src/Client.antt =====
-- experiments/vrclient.py, which runs on the client machine: it loads the store, starts the
-- clients, waits for them and prints what they have measured.
pub mod Argv
pub mod Launch
pub mod Load
use skyros.Base.Decimal.{int, PyInt}
use skyros.Base.Text.{codes, one_of, Text}
use skyros.Base.{
  value_error, index_error, get_elem?, or_raise, ℕ, zero, suc, ◌+◌, ◌-◌, ◌*◌, ◌/◌, ◌%◌, ◌≤◌, ◌<◌,
  ◌≡◌, refl, sym, ap, ◌∙◌, ◌≢◌, ◌⊎◌, inl, inr, Bool, true, false, not, ◌&&◌, ◌||◌, Option, none,
  some, List, [], ◌∷◌, ◌++◌, arith, ltb, leb, ◌==◌, if◌then◌else◌, Bool-cases, Result, ok, err, All,
  length,
}
use skyros.Base.Checked.{◌>>=◌, ◌>>◌}

-- The variables that the script takes from `sys.argv`.
pub record Args : Type 0 where
  pub client_binary_path : Text
  pub config_file_path : Text
  pub perf_dir : Text
  pub num_clients : PyInt
  pub num_ops : PyInt
  pub workload : Text
  pub code : Text
  pub time_run : Text
  pub workload_trace_prefix : Text
  pub readwindow : Text
  pub windowfrac : Text
  pub consensus_config : Option Text

-- the codes whose clients also take the configuration of the replicas
abbrev pub has_consensus : Text → Bool
has_consensus code = one_of code (codes "rtop" ∷ codes "curpopt" ∷ codes "rtopcomm" ∷ [])

-- `sys.argv[i]`
abbrev pub argument : List Text → ℕ → Result Text
argument argv i = or_raise (get_elem? argv i) index_error

consensus_argument : Text → List Text → Result (Option Text)
consensus_argument code argv =
    if has_consensus code then (do config ← argument argv 11; ok (some config)) else ok none

-- the assignments at the top; `directory` is `os.path.dirname(os.path.realpath(path))`
unfoldable pub parse_args : (Text → Text) → List Text → Result Args
unfolding consensus_argument
parse_args directory argv = do
  client_binary_path ← argument argv 1
  config_file_path ← argument argv 2
  clients_text ← argument argv 3
  num_clients ← or_raise (int clients_text) value_error
  ops_text ← argument argv 4
  num_ops ← or_raise (int ops_text) value_error
  workload ← argument argv 5
  code ← argument argv 6
  time_run ← argument argv 7
  workload_trace_prefix ← argument argv 8
  readwindow ← argument argv 9
  windowfrac ← argument argv 10
  consensus_config ← consensus_argument code argv
  ok (record {
    client_binary_path = client_binary_path;
    config_file_path = config_file_path;
    perf_dir = directory config_file_path;
    num_clients = num_clients;
    num_ops = num_ops;
    workload = workload;
    code = code;
    time_run = time_run;
    workload_trace_prefix = workload_trace_prefix;
    readwindow = readwindow;
    windowfrac = windowfrac;
    consensus_config = consensus_config;
  })

-- What the script does to the outside: `os.system`, a command whose output it reads, `time.sleep`
-- and `print`.
pub data Event : Type 0 where
  system : Text → Event
  invoked : Text → Event
  slept : ℕ → Event
  printed : Text → Event

abbrev pub count_from : ℕ → ℕ → List ℕ
count_from i zero = []
count_from i (suc n) = i ∷ count_from (i + 1) n

-- `range(1, n + 1)`
abbrev pub one_to : PyInt → List ℕ
one_to (PyInt.natural n) = count_from 1 n
one_to (PyInt.negative n) = []
