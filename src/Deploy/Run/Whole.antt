-- ===== src/Deploy/Run/Whole.antt =====
-- The main part of experiments/remote-throughput.py, in the order of its statements.
use skyros.Base.Decimal.{str_int}
use skyros.Deploy.Vr.Commands.{workload_command, reset_node_command, stop_node_command}
use skyros.Deploy.Ips.{get_internal_ips, get_server_client_external_ips, servers}
use skyros.Base.Text.{codes, ◌=text◌, Text}
use skyros.Deploy.Vr.{home_dir, Site}
use skyros.Deploy.Run.Load.{
  start_prenodes, copy_prenode_configs, config_paths, copy_configs, load, start_node,
}
use skyros.Deploy.Context.{outfile, check_context_sanity, result_dir, Context}
use skyros.Deploy.Run.{
  Cluster, initialize_output_file, copy_file_remote, str_option, os_system, print_line, address,
  copy_if_given, copy_file_from_remote, invoke_remote_cmd, Effect, run_remote, write_to_output,
}
use skyros.Base.{
  name_error, from_end?, or_raise, assertion_error, Bool, true, false, ◌||◌, List, [], ◌++◌, ltb,
  if◌then◌else◌, Result, ok, err,
}
use skyros.Base.Script.{Script, pure, lift, emit, ◌>>=◌, ◌>>◌, for_each}

-- `target_factory`; what is made is the class of vr.py
unfoldable pub target_factory : Text → Result (Unit {0})
target_factory target_system_name =
    if target_system_name =text codes "vr" then ok tt else err assertion_error

-- The constructed values of the context, as they are before the addresses are read.
abbrev pub site_of : Cluster → Context → Text → List (Text × Text) → Site
site_of w c system_home_dir internal_ips = record {
  repo_home = w.repo_home;
  system_home_dir = system_home_dir;
  local_perf_dir = w.cwd;
  remote_perf_dir = w.cwd;
  servers = servers c.num_nodes;
  internal_ips = internal_ips;
}

abbrev pub rule : Effect
rule = print_line (codes "-----------------------------------------")

-- stopping and resetting the servers
unfoldable pub stop_servers : Site → List (Text × Text) → Script Effect (Unit {0})
stop_servers s ips =
    for_each s.servers (λ i. do machine_ip ← address ips i; run_remote machine_ip stop_node_command)

unfoldable pub reset_servers : Site → List (Text × Text) → Script Effect (Unit {0})
reset_servers s ips =
    for_each s.servers
      (λ i. do machine_ip ← address ips i; run_remote machine_ip (reset_node_command s))

-- the workloads for which nothing is loaded
abbrev pub is_write_only : Text → Bool
is_write_only workload = (workload =text codes "w") || (workload =text codes "t")

unfoldable pub prepare :
    Cluster → Site → Context → List (Text × Text) → Text → Script Effect (Unit {0})
prepare w s c ips client_ip = do
  emit (print_line (codes "Stopping the servers"))
  stop_servers s ips
  emit (os_system (codes "sleep 1"))
  emit (print_line (codes "Resetting the servers"))
  reset_servers s ips
  (if is_write_only c.workload then pure tt else load w s c ips client_ip)
  (if is_write_only c.workload
      then (do emit (print_line (codes "Copying prenode configs")); copy_prenode_configs s ips)
      else pure tt)

-- from the prenodes to the configurations on all machines; behind the loops the script reads the
-- variable of a loop, which no server has assigned if there is none
unfoldable pub copy_all_configs :
    Site → Context → List (Text × Text) → Text → Script Effect (Unit {0})
copy_all_configs s c ips client_ip = do
  emit (print_line (codes "Starting the prenodes"))
  start_prenodes s ips
  emit (print_line (codes "Copying configs"))
  copy_configs s c.num_nodes ips
  i ← lift (or_raise (from_end? s.servers 1) name_error)
  paths ← config_paths s c.num_nodes false
  copy_file_remote client_ip (str_option paths.0) (str_option paths.1)
  client_paths ← config_paths s c.num_nodes true
  for_each s.servers (λ j. copy_if_given ips j client_paths)
  copy_file_remote client_ip (str_option client_paths.0) (str_option client_paths.1)

unfoldable pub start_servers : Site → Context → List (Text × Text) → Script Effect (Unit {0})
start_servers s c ips = do
  emit (print_line (codes "Starting the servers"))
  for_each s.servers (λ i. do
    start_node s c ips i
    (if i =text codes "1" then emit (os_system (codes "sleep 5")) else pure tt))
  emit (os_system (codes "sleep 5"))

-- the delay of the client's network, which is set before the run and removed after it
abbrev pub add_delay_command : Context → Text
add_delay_command c =
    codes "sudo tc qdisc add dev eth2 root netem delay " ++ (str_int c.client_delay ++ codes "us")

unfoldable pub add_delay : Cluster → Context → Text → Script Effect (Unit {0})
add_delay w c client_ip =
    if ltb 0 c.client_delay
    then (do
      emit (print_line (codes "Will delay client"))
      replied ← invoke_remote_cmd w client_ip (add_delay_command c)
      pure tt)
    else pure tt

unfoldable pub remove_delay : Cluster → Context → Text → Script Effect (Unit {0})
remove_delay w c client_ip =
    if ltb 0 c.client_delay
    then (do
      emit (print_line (codes "Will remove the delay from client"))
      replied ← invoke_remote_cmd w client_ip (codes "sudo tc qdisc del dev eth2 root netem")
      pure tt)
    else pure tt

-- the run of the workload, with its output in the output file
unfoldable pub measure : Cluster → Site → Context → Text → Script Effect (Unit {0})
measure w s c client_ip = do
  add_delay w c client_ip
  killed ← invoke_remote_cmd w client_ip (codes "killall client")
  emit (print_line (codes "Starting performance run"))
  command ← lift (workload_command s c)
  emit (print_line (str_option command))
  replied ← invoke_remote_cmd w client_ip (str_option command)
  emit (print_line (codes "Completed performance run"))
  write_to_output (outfile c) true replied.0
  emit (os_system (codes "sleep 1"))
  remove_delay w c client_ip

-- the files that a run leaves, into its directory
abbrev pub collect_command : Site → Context → Text
collect_command s c =
    let dir = result_dir c in
    codes "rm -rf "
    ++ (dir
        ++ (codes "; mkdir "
            ++ (dir
                ++ (codes "; mv "
                    ++ (outfile c
                        ++ (codes " "
                            ++ (dir
                                ++ (codes "; mv ./vrlog* "
                                    ++ (dir
                                        ++ (codes "; mv "
                                            ++ (s.remote_perf_dir
                                                ++ (codes "/latencies.*.raw " ++ dir))))))))))))

unfoldable pub collect : Site → Context → List (Text × Text) → Script Effect (Unit {0})
collect s c ips = do
  for_each s.servers (λ i. do
    machine_ip ← address ips i
    copy_file_from_remote machine_ip (codes "/mydata/tmp/vrlog") (codes "./vrlog." ++ i))
  emit (os_system (collect_command s c))

-- the steps on the machines, from the stop of the servers to their stop; vr.py has no commands
-- for what comes after a run
unfoldable pub run_steps :
    Cluster → Site → Context → List (Text × Text) → Text → Script Effect (Unit {0})
run_steps w s c ips client_ip = do
  prepare w s c ips client_ip
  copy_all_configs s c ips client_ip
  start_servers s c ips
  measure w s c client_ip
  collect s c ips
  stop_servers s ips

-- the whole script, behind the parsing of its options
unfoldable pub deploy : Cluster → Context → Script Effect (Unit {0})
deploy w c = do
  lift (check_context_sanity c)
  lift (target_factory c.target_system_name)
  system_home_dir ← lift (home_dir (site_of w c [] []) c.code)
  emit rule
  emit (print_line (outfile c))
  emit rule
  found ← lift (get_server_client_external_ips (servers c.num_nodes) c.num_nodes w.external_ips)
  internal_ips ←
      (if c.geo
        then pure found.0
        else lift (get_internal_ips (servers c.num_nodes) c.num_nodes w.internal_ips))
  initialize_output_file (outfile c)
  run_steps w (site_of w c system_home_dir internal_ips) c found.0 found.1
