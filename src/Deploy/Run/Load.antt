-- ===== src/Deploy/Run/Load.antt =====
-- The configuration files that vr.py writes on the way, and `load` of
-- experiments/remote-throughput.py.
use skyros.Deploy.Vr.Commands.{start_node_command, config_filename}
use skyros.Deploy.Context.{Context}
use skyros.Base.Text.{codes, is_empty, ◌=text◌, Text}
use skyros.Deploy.Vr.{get_config_str, Site}
use skyros.Deploy.Run.{
  Cluster, append_to, str_option, truncate, run_remote, os_system, print_line, address, Effect,
  invoke_remote_cmd, copy_if_given, run_if_given,
}
use skyros.Base.{system_exit, ℕ, Bool, false, not, Option, none, some, List, ◌++◌, if◌then◌else◌}
use skyros.Base.Script.{Script, pure, raise, lift, emit, verify, ◌>>=◌, ◌>>◌, for_each}

-- `get_local_remote_config_paths` and `get_local_remote_client_config_paths`
unfoldable pub config_paths : Site → ℕ → Bool → Script Effect (Option Text × Option Text)
config_paths s num_nodes is_client_facing =
    let local_cfg_file = s.local_perf_dir ++ (codes "/" ++ config_filename is_client_facing) in
    let remote_cfg_file = s.remote_perf_dir ++ (codes "/" ++ config_filename is_client_facing) in
    do
      emit (os_system (codes "rm -rf " ++ local_cfg_file))
      emit (truncate local_cfg_file)
      config_str ← lift (get_config_str s num_nodes is_client_facing)
      emit (append_to local_cfg_file config_str)
      pure (some local_cfg_file, some remote_cfg_file)

-- What vr.py gives for the steps that it does not use.
abbrev pub prenode_config_paths : Option Text × Option Text
prenode_config_paths = (none, none)

abbrev pub start_prenode_command : Option Text
start_prenode_command = none

abbrev pub load_command : Option Text
load_command = none

abbrev pub finish_load_command : Option Text
finish_load_command = none

-- the loop that makes and copies the configuration of the servers
unfoldable pub copy_configs : Site → ℕ → List (Text × Text) → Script Effect (Unit {0})
copy_configs s num_nodes ips =
    for_each s.servers (λ i. do paths ← config_paths s num_nodes false; copy_if_given ips i paths)

abbrev pub copy_prenode_configs : Site → List (Text × Text) → Script Effect (Unit {0})
copy_prenode_configs s ips = for_each s.servers (λ i. copy_if_given ips i prenode_config_paths)

abbrev pub start_prenodes : Site → List (Text × Text) → Script Effect (Unit {0})
start_prenodes s ips = for_each s.servers (λ i. run_if_given ips i start_prenode_command)

-- `run_remote(ips[i], context.user, target_system.start_node_command(i, context, …))`
unfoldable pub start_node : Site → Context → List (Text × Text) → Text → Script Effect (Unit {0})
start_node s c ips i = do
  machine_ip ← address ips i
  command ← lift (start_node_command s c i)
  run_remote machine_ip command

-- how the load ended, by what the command wrote to its error output
unfoldable pub load_outcome : Text → Script Effect (Unit {0})
load_outcome error =
    if is_empty error then emit (print_line (codes "Completed load phase")) else (do
      emit (print_line (codes "Problem in load phase...Exiting. Err:" ++ error))
      raise system_exit)

unfoldable pub load_afresh :
    Cluster → Site → Context → List (Text × Text) → Text → Script Effect (Unit {0})
load_afresh w s c ips client_ip = do
  emit (print_line (codes "Copying prenode load configs"))
  copy_prenode_configs s ips
  emit (print_line (codes "Starting the prenodes for load phase"))
  start_prenodes s ips
  emit (os_system (codes "sleep 3"))
  emit (print_line (codes "Copying load configs"))
  copy_configs s c.num_nodes ips
  emit (print_line (codes "Starting the servers for load phase"))
  for_each s.servers (start_node s c ips)
  emit (os_system (codes "sleep 5"))
  emit (print_line (codes "Starting the load phase"))
  replied ← invoke_remote_cmd w client_ip (str_option load_command)
  load_outcome replied.1
  emit (os_system (codes "sleep 4"))
  for_each s.servers
      (λ i. do machine_ip ← address ips i; run_remote machine_ip (str_option finish_load_command))

-- `load`
unfoldable pub load :
    Cluster → Site → Context → List (Text × Text) → Text → Script Effect (Unit {0})
load w s c ips client_ip = do
  verify (not (c.workload =text codes "w"))
  verify (not (c.workload =text codes "t"))
  (if c.load_afresh then load_afresh w s c ips client_ip else pure tt)
