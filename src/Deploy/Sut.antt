-- ===== src/Deploy/Sut.antt =====
-- experiments/sut.py: what remote-throughput.py asks of a system under test, and vr.py as one. A
-- method that has no `return` gives none.
use skyros.Deploy.Context.{Context}
use skyros.Deploy.Vr.{Site, home_dir, workload_dir, load_dir}
use skyros.Deploy.Vr.Commands.{
  start_node_command, reset_node_command, stop_node_command, workload_command,
}
use skyros.Deploy.Run.Load.{
  config_paths, prenode_config_paths, start_prenode_command, load_command, finish_load_command,
}
use skyros.Deploy.Run.{Effect}
use skyros.Base.Text.{Text}
use skyros.Base.{ℕ, Bool, false, Option, none, Result}
use skyros.Base.Script.{Script}

-- The methods of the interface; the constructed values of the context are the `Site`.
pub record SystemUnderTest : Type 0 where
  pub home_dir : Site → Context → Result Text
  pub workload_dir : Context → Text
  pub load_dir : Context → Text
  pub get_local_remote_prenode_config_paths : Text → Context → Bool → Option Text × Option Text
  pub start_prenode_command : Text → Context → Bool → Option Text
  pub get_local_remote_config_paths :
      Site → Text → Context → Bool → Script Effect (Option Text × Option Text)
  pub start_node_command : Site → Text → Context → Bool → Result Text
  pub reset_node_command : Site → Text → Context → Text
  pub finish_load_command : Text → Context → Option Text
  pub stop_node_command : Text → Context → Text
  pub load_command : Context → ℕ → Option Text
  pub workload_command : Site → Context → ℕ → Result (Option Text)
  pub postprocessing_command : Text → Context → Option Text
  pub client_postprocessing_command : Text → Context → Option Text

-- `vr(num_nodes)`
abbrev pub vr : ℕ → SystemUnderTest
vr num_nodes = record {
  home_dir = λ s c. home_dir s c.code;
  workload_dir = workload_dir;
  load_dir = λ c. load_dir;
  get_local_remote_prenode_config_paths = λ i c is_load. prenode_config_paths;
  start_prenode_command = λ i c is_load. start_prenode_command;
  get_local_remote_config_paths = λ s i c is_load. config_paths s num_nodes false;
  start_node_command = λ s i c is_load. start_node_command s c i;
  reset_node_command = λ s i c. reset_node_command s;
  finish_load_command = λ i c. finish_load_command;
  stop_node_command = λ i c. stop_node_command;
  load_command = λ c num_clients. load_command;
  workload_command = λ s c num_clients. workload_command s c;
  postprocessing_command = λ i c. none;
  client_postprocessing_command = λ i c. none;
}
