-- ===== src/Deploy/Options.antt =====
-- The options of experiments/remote-throughput.py with their defaults. Reading the words of the
-- command line is argparse's; here are the values that it has found, one for each option given.
use skyros.Deploy.Context.{Context}
use skyros.Base.Text.{codes, Text}
use skyros.Base.Decimal.{PyInt}
use skyros.Base.{PyError, or_raise, ℕ, Bool, Option, none, some, Result, ok}
use skyros.Base.Checked.{◌>>=◌}

pub record Given : Type 0 where
  pub target_system_name : Option Text
  pub medium : Option Text
  pub code : Option Text
  pub time : Option PyInt
  pub run : Option PyInt
  pub cluster : Option Text
  pub sync : Option Text
  pub user : Option Text
  pub load_afresh : Bool
  pub workload : Option Text
  pub sync_rep_factor : Option ℕ
  pub num_nodes : Option ℕ
  pub client_delay : Option ℕ
  pub num_clients : Option ℕ
  pub geo : Bool
  pub leader_reads : Option Text
  pub batch : Option ℕ
  pub workload_trace_prefix : Option Text
  pub readwindow : Option ℕ
  pub windowfrac : Option Text

-- `required = True`: argparse prints how to use the script and exits
abbrev pub required : {A : Type 0} → Option A → Result A
required given = or_raise given PyError.system_exit

-- `default = …`
abbrev pub or_default : {A : Type 0} → Option A → A → A
or_default none value = value
or_default (some given) value = given

-- `parser.parse_args()`
unfoldable pub parse_args : Given → Result Context
parse_args g = do
  target_system_name ← required g.target_system_name
  medium ← required g.medium
  code ← required g.code
  time ← required g.time
  run ← required g.run
  cluster ← required g.cluster
  sync ← required g.sync
  user ← required g.user
  workload ← required g.workload
  sync_rep_factor ← required g.sync_rep_factor
  num_nodes ← required g.num_nodes
  leader_reads ← required g.leader_reads
  ok (record {
    target_system_name = target_system_name;
    medium = medium;
    code = code;
    time = time;
    run = run;
    cluster = cluster;
    sync = sync;
    user = user;
    load_afresh = g.load_afresh;
    workload = workload;
    sync_rep_factor = sync_rep_factor;
    num_nodes = num_nodes;
    client_delay = or_default g.client_delay 0;
    num_clients = or_default g.num_clients 8;
    geo = g.geo;
    leader_reads = leader_reads;
    batch = or_default g.batch 64;
    workload_trace_prefix = or_default g.workload_trace_prefix (codes "run");
    readwindow = or_default g.readwindow 1000;
    windowfrac = or_default g.windowfrac (codes "0.5");
  })
