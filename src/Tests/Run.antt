-- ===== src/Tests/Run.antt =====
-- A run of remote-throughput.py on one server and a client.
use skyros.Deploy.Sut.{vr}
use skyros.Deploy.Run.Sane.{check_context_sanity-Serves, Serves}
use skyros.Deploy.Ips.{clean}
use skyros.Deploy.Ips.Servers.{numbered}
use skyros.Deploy.Run.Order.Output.{deploy-output, IsOther}
use skyros.Base.Decimal.{PyInt, str_int}
use skyros.Deploy.Run.Order.Deployed.{deploy-effects, IsCluster, deploy_events}
use skyros.Deploy.Vr.{home_dir}
use skyros.Deploy.Vr.Commands.{workload_command}
use skyros.Deploy.Run.Whole.{target_factory, site_of, deploy}
use skyros.Deploy.Run.{ssh_command, output_header, written_to, Cluster}
use skyros.Base.Text.{join, ◌=text◌, one_of, codes, Text, file_lines}
use skyros.Deploy.Context.{Context, outfile, check_context_sanity}
use skyros.Base.{◌≡◌, refl, true, false, some, List, [], ◌∷◌, ◌++◌, arith, ok}

abbrev options : Context
options = record {
  target_system_name = codes "vr";
  medium = codes "data";
  code = codes "rtop";
  time = PyInt.natural 10;
  run = PyInt.natural 1;
  cluster = codes "us-east-1";
  sync = codes "no";
  user = codes "sarthakm";
  load_afresh = false;
  workload = codes "a";
  sync_rep_factor = 3;
  num_nodes = 1;
  client_delay = 0;
  num_clients = 10;
  geo = false;
  leader_reads = codes "yes";
  batch = 64;
  workload_trace_prefix = codes "run";
  readwindow = 1000;
  windowfrac = codes "0.5";
}

-- The one command with an output is that of the workload.
abbrev cluster : Cluster
cluster = record {
  repo_home = codes "/r";
  cwd = codes "/e";
  external_ips = codes "h1\nh2\n";
  internal_ips = codes "i1\n";
  out = λ cmd. codes "out\n";
  err = λ cmd. [];
  show_bytes = λ text. text;
}

abbrev servers_lines : List Text
servers_lines = codes "h1\n" ∷ []

abbrev inner_lines : List Text
inner_lines = codes "i1\n" ∷ []

IsCluster-small : IsCluster cluster options servers_lines inner_lines (codes "h2\n")
unfolding file_lines
IsCluster-small = record {
  some_server = omega arith;
  rest = [];
  external = refl;
  first_length = refl;
  has_client = λ e. cc e;
  internal = refl;
  inner_length = refl;
}

abbrev command : Text
command =
    codes
      "killall -s 9 client; /e/vrclient.py /r/src/skyros/bench/client /e/vrconfig.client 10 2000000 a rtop 10 runa 1000 0.5 /e/vrconfig"

abbrev home : Text
home = codes "/r/src/skyros"

is_sane : check_context_sanity options ≡ ok tt
unfolding check_context_sanity one_of ◌=text◌
is_sane = refl

has_home : home_dir (site_of cluster options [] []) options.code ≡ ok home
unfolding home_dir ◌=text◌
has_home = refl

has_command :
    workload_command (site_of cluster options home (numbered 0 inner_lines)) options
    ≡ ok (some command)
unfolding workload_command home_dir ◌=text◌ one_of join str_int
has_command = refl

not_config : IsOther (outfile options) (site_of cluster options home (numbered 0 inner_lines))
unfolding outfile ◌=text◌ join
not_config true = refl
not_config false = refl

deploy-effects_example : deploy cluster options [] ≡ (
  ok tt,
  deploy_events cluster options servers_lines inner_lines
      (codes "h2\n")
      home
      command
      IsCluster-small,
)
deploy-effects_example =
    deploy-effects cluster options servers_lines inner_lines (codes "h2\n") home command
      IsCluster-small is_sane refl has_home has_command

deploy-output_example :
    ((deploy cluster options []).0 ≡ ok tt)
    × (written_to (outfile options) (deploy cluster options []).1 []
        ≡ output_header ++ cluster.out (ssh_command (clean (codes "h2\n")) command))
deploy-output_example =
    deploy-output cluster options servers_lines inner_lines (codes "h2\n") home command
      IsCluster-small is_sane refl has_home has_command not_config

check_context_sanity-Serves_example :
    (target_factory (codes "vr") ≡ ok tt) × Serves (vr 1) (site_of cluster options home []) options
check_context_sanity-Serves_example =
    check_context_sanity-Serves options (site_of cluster options home []) 1 is_sane
