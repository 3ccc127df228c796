-- ===== src/Deploy/Vr/Commands.antt =====
-- The commands that vr.py gives to the machines, as texts.
use skyros.Base.Decimal.{int, str_int}
use skyros.Deploy.Vr.{port, home_dir, Site}
use skyros.Base.Text.{join, one_of, ◌=text◌, codes, Text}
use skyros.Deploy.Context.{str_pyint, is_traced, Context}
use mathlib.Core.Option
use skyros.Base.{
  value_error, or_raise, ℕ, Bool, Option, none, some, List, [], ◌∷◌, ◌++◌, if◌then◌else◌, Result,
  ok,
}
use skyros.Base.Checked.{◌>>=◌}

-- `start_node_command`: the replica with number `int(i)-1`
unfoldable pub start_node_command : Site → Context → Text → Result Text
start_node_command s c i = do
  number ← or_raise (int i) value_error
  ok (
      join (codes " ") (
        (s.system_home_dir ++ codes "/bench/replica")
        ∷ codes "-c"
        ∷ (s.remote_perf_dir ++ codes "/vrconfig")
        ∷ codes "-b"
        ∷ str_int c.batch
        ∷ codes "-i"
        ∷ str_pyint (port 0 number)
        ∷ codes "-m"
        ∷ codes "vr"
        ∷ codes ">/mydata/tmp/vrlog"
        ∷ codes "2>&1"
        ∷ codes "& "
        ∷ []))

abbrev pub kill_replicas : Text
kill_replicas = codes "killall -s 9 replica >/dev/null 2>&1; killall -s 9 replica >/dev/null 2>&1;"

unfoldable pub reset_node_command : Site → Text
reset_node_command s =
    kill_replicas
    ++ (codes "rm -rf /mydata/tmp/vrlog;"
        ++ (codes "sleep 1;"
            ++ (kill_replicas
                ++ (codes "rm -rf "
                    ++ (s.remote_perf_dir ++ codes "/vrconfig;rm -rf /dev/shm/rocks*;")))))

abbrev pub stop_node_command : Text
stop_node_command = kill_replicas

-- `get_local_remote_config_paths` and `get_local_remote_client_config_paths`
abbrev pub config_filename : Bool → Text
config_filename is_client_facing =
    if is_client_facing then codes "vrconfig.client" else codes "vrconfig"

abbrev pub ops_per_client : ℕ
ops_per_client = 2000000

-- the workloads whose trace has a name of its own
abbrev pub trace_prefix : Context → Text
trace_prefix c = if is_traced c.workload then c.workload_trace_prefix else codes "run" ++ c.workload

-- the arguments of vrclient.py that every code has, behind the configuration `config`
abbrev pub client_arguments : Context → Text → Text → Text → List Text → List Text
client_arguments c program client config more =
    program
    ∷ client
    ∷ config
    ∷ str_int c.num_clients
    ∷ str_int ops_per_client
    ∷ c.workload
    ∷ c.code
    ∷ str_pyint c.time
    ∷ trace_prefix c
    ∷ str_int c.readwindow
    ∷ c.windowfrac
    ∷ more

-- the call of vrclient.py with a configuration
unfoldable pub client_call : Site → Context → Text → List Text → Result (Option (List Text))
client_call s c config more = do
  home ← home_dir s c.code
  ok (
      some (
        client_arguments c (s.remote_perf_dir ++ codes "/vrclient.py")
          (home ++ codes "/bench/client") (s.remote_perf_dir ++ config) more))

-- the words of `workload_command` behind `killall -s 9 client; `; `none` where no branch returns
unfoldable pub workload_words : Site → Context → Result (Option (List Text))
unfolding client_call
workload_words s c =
    if c.code =text codes "orig"
    then client_call s c (codes "/vrconfig") []
    else if one_of c.code (codes "rtop" ∷ codes "curpopt" ∷ codes "rtopcomm" ∷ [])
    then client_call s c (codes "/vrconfig.client") ((s.remote_perf_dir ++ codes "/vrconfig") ∷ [])
    else if c.code =text codes "curp"
    then client_call s c (codes "/vrconfig.client") []
    else ok none

-- `workload_command`
unfoldable pub workload_command : Site → Context → Result (Option Text)
unfolding workload_words
workload_command s c = do
  found ← workload_words s c
  ok (Option.map (λ ws. codes "killall -s 9 client; " ++ join (codes " ") ws) found)
