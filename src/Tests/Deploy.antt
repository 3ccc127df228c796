-- ===== src/Tests/Deploy.antt =====
-- Inputs for experiments/remote-throughput.py and experiments/vr.py.
use skyros.Base.Text.Grep.{unlines}
use skyros.Base.Decimal.{PyInt, int, str_int}
use skyros.Results.Table.{lookup}
use skyros.Results.Calc.Scripts.{compat, kv, rocksdb, ycsb}
use skyros.Deploy.Ips.Servers.{numbered}
use skyros.Deploy.Ips.Numbered.{
  get_server_client_external_ips-short, get_server_client_external_ips-numbered,
}
use skyros.Deploy.Context.Names.{outfile-base_file, IsRead, outfile-batch, IsStandard}
use skyros.Base.Text.{file_lines, ◌=text◌, codes, one_of, join, Text}
use skyros.Deploy.Ips.{clean, servers, get_server_client_external_ips}
use skyros.Deploy.Vr.Commands.{start_node_command}
use skyros.Deploy.Vr.{base_port, port, num_faults, Site, get_config_str}
use skyros.Deploy.Vr.Config.{get_config_str-lines, replica_texts, quorum_size}
use skyros.Deploy.Vr.Quorums.{quorum_size-common, quorum_size-left}
use skyros.Protocol.Quorum.Maps.{count}
use skyros.Deploy.Context.{outfile, Context, check_context_sanity}
use skyros.Base.{
  All, leb, ltb, not, ℕ, assertion_error, ◌+◌, ◌%◌, ◌<◌, ◌≡◌, refl, true, false, List, [], ◌∷◌,
  ◌++◌, arith, ok, err,
}

-- A run of micro-nilext-only: `--code orig --workload t --batch 1 --num_clients 5`.
abbrev unbatched : Context
unbatched = record {
  target_system_name = codes "vr";
  medium = codes "data";
  code = codes "orig";
  time = PyInt.natural 10;
  run = PyInt.natural 1;
  cluster = codes "us-east-1";
  sync = codes "no";
  user = codes "sarthakm";
  load_afresh = false;
  workload = codes "t";
  sync_rep_factor = 3;
  num_nodes = 3;
  client_delay = 0;
  num_clients = 5;
  geo = false;
  leader_reads = codes "yes";
  batch = 1;
  workload_trace_prefix = codes "run";
  readwindow = 1000;
  windowfrac = codes "0.5";
}

-- A run of micro-read-latest.
abbrev read_latest : Context
read_latest = record unbatched {
  code = codes "rtop";
  workload = codes "r";
  readwindow = 100;
  windowfrac = codes "0.01";
}

outfile-unbatched : outfile unbatched ≡ codes "t.vr.orignobatch.data.no.3.yes.0.5.1"
unfolding outfile join str_int ◌=text◌
outfile-unbatched = refl

outfile-read_latest : outfile read_latest ≡ codes "r.100.0.01.vr.rtop.data.no.3.yes.0.5.1"
unfolding outfile join str_int ◌=text◌
outfile-read_latest = refl

unbatched_sane : check_context_sanity unbatched ≡ ok tt
unfolding check_context_sanity one_of ◌=text◌
unbatched_sane = refl

batched-IsStandard : IsStandard (record unbatched { batch = 20 }) 1
batched-IsStandard = record {
  system = refl;
  medium = refl;
  sync = refl;
  replication = refl;
  leader_reads = refl;
  delay = refl;
  run = refl;
}

outfile-base_file_example :
    All (IsRead (codes ".") (record unbatched { batch = 20 }) 1) compat.workloads
    × All (IsRead (codes ".") (record unbatched { batch = 20 }) 1) kv.workloads
    × All (IsRead (codes ".") (record unbatched { batch = 20 }) 1) rocksdb.workloads
    × All (IsRead (codes ".") (record unbatched { batch = 20 }) 1) ycsb.workloads
outfile-base_file_example =
    outfile-base_file (codes ".") (record unbatched { batch = 20 }) 1 batched-IsStandard
      (omega arith)

outfile-batch_example : outfile (record read_latest { batch = 20 }) ≡ outfile read_latest
outfile-batch_example = outfile-batch read_latest 20 (unfold ◌=text◌ in refl)

abbrev addresses : Text
addresses = codes "10.0.0.1\n10.0.0.2\t\n10.0.0.3\n10.0.0.9\n"

abbrev server_lines : List Text
server_lines = codes "10.0.0.1\n" ∷ codes "10.0.0.2\t\n" ∷ codes "10.0.0.3\n" ∷ []

get_server_client_external_ips-numbered_example :
    get_server_client_external_ips (servers 3) 3 addresses
    ≡ ok (numbered 0 server_lines, clean (codes "10.0.0.9\n"))
get_server_client_external_ips-numbered_example =
    get_server_client_external_ips-numbered 3 addresses (codes "10.0.0.9\n") server_lines []
      (unfold file_lines in refl) refl (λ e. cc)

get_server_client_external_ips-short_example :
    get_server_client_external_ips (servers 5) 5 addresses ≡ err assertion_error
get_server_client_external_ips-short_example =
    get_server_client_external_ips-short 5 addresses (unfold file_lines in omega arith)

abbrev site : Site
site = record {
  repo_home = codes "/users/sarthakm/Skyros";
  system_home_dir = codes "/users/sarthakm/Skyros/src/skyros";
  local_perf_dir = codes "/users/sarthakm/Skyros/experiments";
  remote_perf_dir = codes "/users/sarthakm/Skyros/experiments";
  servers = servers 3;
  internal_ips = numbered 0 server_lines;
}

get_config_str_run :
    get_config_str site 3 true
    ≡ ok (codes "f 1\nreplica 10.0.0.1:14000\nreplica 10.0.0.2:14001\nreplica 10.0.0.3:14002\n")
unfolding get_config_str numbered servers str_int lookup ◌=text◌ int
get_config_str_run = refl

get_config_str-lines_example :
    get_config_str site 3 false
    ≡ ok (
        unlines
          ((codes "f " ++ str_int (num_faults 3)) ∷ replica_texts (base_port false) 0 server_lines))
get_config_str-lines_example = get_config_str-lines site 3 false server_lines refl refl refl

quorum_size-common_example : (i : ℕ) × (i < 5) × (leb i 2 ≡ true) × (leb 2 i ≡ true)
unfolding quorum_size count
quorum_size-common_example =
    quorum_size-common 5 (λ i. leb i 2) (λ i. leb 2 i) (omega arith) (omega arith)

quorum_size-left_example : count 4 (λ i. not (ltb i 2)) + 1 ≡ quorum_size (num_faults 4) + 4 % 2
unfolding count
quorum_size-left_example = quorum_size-left 4 (λ i. ltb i 2) refl

start_node_command_run :
    start_node_command site unbatched (codes "2")
    ≡ ok (
        codes
          "/users/sarthakm/Skyros/src/skyros/bench/replica -c /users/sarthakm/Skyros/experiments/vrconfig -b 1 -i 1 -m vr >/mydata/tmp/vrlog 2>&1 & ")
unfolding start_node_command join str_int int port
start_node_command_run = refl
