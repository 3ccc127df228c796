-- ===== src/Tests/Client.antt =====
-- Inputs for experiments/vrclient.py.
use skyros.Client.Argv.{workload_command-parse_args, args_of, expected_words}
use skyros.Client.Launch.Commands.{run_phase-effects, client_events, server_events}
use skyros.Base.Words.{words, literal-IsWord, space}
use skyros.Client.Load.Waits.{
  check_load-ends, wait_for_clients-polls, seen_after, check_outcome, polls,
}
use skyros.Base.Text.{IsWord, one_of, join, occurs_in, codes, ◌=text◌, Text}
use skyros.Deploy.Context.{Context}
use skyros.Client.{parse_args, system, Args}
use skyros.Deploy.Vr.{home_dir, Site}
use skyros.Base.Decimal.{PyInt, str_int}
use skyros.Deploy.Vr.Commands.{workload_command}
use skyros.Client.Load.{ps_command, wait_for_clients, check_load, World}
use skyros.Client.Launch.{clean_command, main, run_phase}
use skyros.Base.{
  index_error, ℕ, zero, suc, ◌≡◌, refl, false, some, [], ◌∷◌, ◌++◌, arith, ok, err, All,
}

abbrev run_rtop : Context
run_rtop = record {
  target_system_name = codes "vr";
  medium = codes "data";
  code = codes "rtop";
  time = PyInt.natural 60;
  run = PyInt.natural 1;
  cluster = codes "us-east-1";
  sync = codes "no";
  user = codes "ubuntu";
  load_afresh = false;
  workload = codes "a";
  sync_rep_factor = 3;
  num_nodes = 5;
  client_delay = 0;
  num_clients = 10;
  geo = false;
  leader_reads = codes "yes";
  batch = 64;
  workload_trace_prefix = codes "run";
  readwindow = 1000;
  windowfrac = codes "0.5";
}

abbrev here : Site
here = record {
  repo_home = codes "/r";
  system_home_dir = codes "/r/src/skyros";
  local_perf_dir = codes "/r/e";
  remote_perf_dir = codes "/r/e";
  servers = [];
  internal_ips = [];
}

abbrev home : Text
home = codes "/r/src/skyros"

-- the directory of every configuration file
abbrev directory : Text → Text
directory path = codes "/r/e"

run_rtop_words : All (IsWord space) (expected_words here run_rtop home)
unfolding str_int ◌=text◌ one_of
run_rtop_words = (
  literal-IsWord _ _ refl,
  (
    literal-IsWord _ _ refl,
    (
      literal-IsWord _ _ refl,
      (
        literal-IsWord _ _ refl,
        (
          literal-IsWord _ _ refl,
          (
            literal-IsWord _ _ refl,
            (
              literal-IsWord _ _ refl,
              (
                literal-IsWord _ _ refl,
                (
                  literal-IsWord _ _ refl,
                  (
                    literal-IsWord _ _ refl,
                    (literal-IsWord _ _ refl, (literal-IsWord _ _ refl, tt)),
                  ),
                ),
              ),
            ),
          ),
        ),
      ),
    ),
  ),
)

workload_command-parse_args_example :
    (workload_command here run_rtop
      ≡ ok (
          some (
            codes "killall -s 9 client; "
            ++ join (space ∷ []) (expected_words here run_rtop home))))
    × (parse_args directory (words (join (space ∷ []) (expected_words here run_rtop home)))
        ≡ ok (args_of directory here run_rtop home))
workload_command-parse_args_example =
    workload_command-parse_args directory here run_rtop home (unfold home_dir ◌=text◌ in refl)
      run_rtop_words

-- two polls see the clients
abbrev polled : ℕ → Text
polled zero = codes "client\n"
polled (suc zero) = codes "client\n"
polled (suc (suc k)) = []

wait_for_clients-polls_example : wait_for_clients 5 polled 0 [] ≡ (ok tt, polls ps_command 3)
wait_for_clients-polls_example =
    wait_for_clients-polls 2 5 0 polled [] (refl, (refl, refl)) (omega arith)

-- the third reply shows the load
abbrev committed : ℕ → Text
committed zero = codes "lastcommitted 999000\n"
committed (suc zero) = codes "lastcommitted 999999\n"
committed (suc (suc k)) = codes "lastcommitted 1000000\n"

check_load_run : (check_load 8 (codes "ip") committed 0 []).0 ≡ ok (codes "lastcommitted 1000000\n")
unfolding check_load occurs_in
check_load_run = refl

check_load-ends_example :
    check_load 8 (codes "ip") committed 0 []
    ≡ check_outcome (codes "ip") committed 0 7 (seen_after 7 committed 0) []
check_load-ends_example = check_load-ends (codes "ip") committed []

abbrev two_clients : Args
two_clients = record {
  client_binary_path = codes "/r/src/skyros/bench/client";
  config_file_path = codes "/r/e/vrconfig.client";
  perf_dir = codes "/r/e";
  num_clients = PyInt.natural 2;
  num_ops = PyInt.natural 2000000;
  workload = codes "r";
  code = codes "rtop";
  time_run = codes "60";
  workload_trace_prefix = codes "runr";
  readwindow = codes "100";
  windowfrac = codes "0.5";
  consensus_config = some (codes "/r/e/vrconfig");
}

abbrev lats : ℕ → Text
lats i = codes "lat\nend\n"

abbrev world : World
world = record {
  load_ps = polled;
  run_ps = polled;
  committed = committed;
  external_ips = codes "10.0.0.1\n";
  lat = λ i. some (lats i);
}

run_phase-effects_example : run_phase 5 two_clients world [] ≡ (
  ok tt,
  system (clean_command two_clients)
      ∷ (server_events two_clients ++ client_events two_clients lats (1 ∷ 2 ∷ []) 2),
)
run_phase-effects_example =
    run_phase-effects two_clients world lats 5 2 2 [] (unfold one_of ◌=text◌ in refl) refl
      (refl, (refl, refl)) (omega arith) (refl, (refl, tt))

main_short_argv : (main directory 5 (codes "vrclient.py" ∷ []) world []).0 ≡ err index_error
unfolding main parse_args
main_short_argv = refl
