-- ===== src/Deploy/Run/Order/Steps.antt =====
-- What each step of a run does, when every server has its address and the configuration is known.
use skyros.Deploy.Vr.Config.{port_text}
use skyros.Deploy.Ips.{servers_from}
use skyros.Deploy.Ips.Servers.{=text_false, numbered}
use skyros.Deploy.Run.Order.{
  copy_if_given-Does, run_each-Does, sent, on_each, servers-Does, HasAddresses, ran,
}
use skyros.Base.Decimal.{int-str_int, str_int}
use skyros.Deploy.Run.{
  address, run_remote, copy_file_from_remote, copy_if_given, run_if_given, append_to, truncate,
  os_system, Effect,
}
use mathlib.Core.List.{map}
use skyros.Deploy.Run.Load.{
  start_prenodes, copy_prenode_configs, start_node, copy_configs, config_paths,
}
use skyros.Deploy.Run.Whole.{collect_command, collect, stop_servers, reset_servers}
use skyros.Deploy.Context.{Context}
use skyros.Base.Text.{◌=text◌, join, codes, Text}
use skyros.Deploy.Vr.{get_config_str, Site}
use skyros.Deploy.Vr.Commands.{
  kill_replicas, reset_node_command, config_filename, start_node_command,
}
use skyros.Base.{
  ==_false, append-nil, append_assoc, All-map, ℕ, zero, suc, ◌+◌, ◌≡◌, refl, sym, ap, ◌∙◌, inl, inr,
  Bool, false, some, List, [], ◌∷◌, ◌++◌, arith, ◌==◌, if◌then◌else◌, Bool-cases, ok, length,
}
use skyros.Base.Script.{trace_eq, Script, pure, emit, ◌>>=◌, ◌>>◌, for_each, Does}

-- The command that starts replica `x`.
pub node_command : Site → Context → ℕ → Text
node_command s c x = join (codes " ") (
    (s.system_home_dir ++ codes "/bench/replica")
    ∷ codes "-c"
    ∷ (s.remote_perf_dir ++ codes "/vrconfig")
    ∷ codes "-b"
    ∷ str_int c.batch
    ∷ codes "-i"
    ∷ str_int x
    ∷ codes "-m"
    ∷ codes "vr"
    ∷ codes ">/mydata/tmp/vrlog"
    ∷ codes "2>&1"
    ∷ codes "& "
    ∷ [])

start_node_command-str_int :
    (s : Site) (c : Context) (x : ℕ)
    → start_node_command s c (str_int (x + 1)) ≡ ok (node_command s c x)
unfolding start_node_command node_command
start_node_command-str_int s c x =
    rw (int-str_int (x + 1), port_text 0 x) (ap (λ (k : ℕ). ok (node_command s c k)) (omega arith))

-- What every replica is started with, from replica `x` on; the first one is waited for.
unfoldable pub replica_events : Site → Context → ℕ → List (Text × Text) → List Effect
replica_events s c x [] = []
replica_events s c x ((i, ip) ∷ rest) =
    ran ip (node_command s c x)
    ++ ((if x == 0 then os_system (codes "sleep 5") ∷ [] else [])
        ++ replica_events s c (x + 1) rest)

-- The directory and the name of a configuration file.
abbrev pub config_file : Site → Bool → Text
config_file s is_client_facing = s.local_perf_dir ++ (codes "/" ++ config_filename is_client_facing)

abbrev pub remote_config_file : Site → Bool → Text
remote_config_file s is_client_facing =
    s.remote_perf_dir ++ (codes "/" ++ config_filename is_client_facing)

-- The file is removed and written anew.
abbrev pub renewed : Text → Text → List Effect
renewed path content =
    os_system (codes "rm -rf " ++ path) ∷ truncate path ∷ append_to path content ∷ []

-- A run whose servers all have their addresses, and the configuration files.
pub record IsSite (s : Site) (n : ℕ) (ips : List (Text × Text)) (config : Bool → Text)
    : Type 0 where
  pub names : s.servers ≡ map (λ e. e.0) ips
  pub addresses : HasAddresses ips ips
  pub configs :
      (is_client_facing : Bool) → get_config_str s n is_client_facing ≡ ok (config is_client_facing)

-- The copy of a server's log.
abbrev fetch_log : List (Text × Text) → Text → Script Effect (Unit {0})
fetch_log ips i = do
  machine_ip ← address ips i
  copy_file_from_remote machine_ip (codes "/mydata/tmp/vrlog") (codes "./vrlog." ++ i)

unfoldable pub fetched : Text → Text → List Effect
fetched i ip =
    os_system (
      codes "scp sarthakm@"
      ++ (ip
          ++ (codes ":" ++ (codes "/mydata/tmp/vrlog" ++ (codes " " ++ (codes "./vrlog." ++ i))))))
    ∷ []

-- The configuration is written for each server anew and copied to it.
abbrev pub config_events : Site → List (Text × Text) → (Bool → Text) → List Effect
config_events s ips config =
    on_each
      (λ i ip.
        renewed (config_file s false) (config false)
        ++ sent ip (config_file s false) (remote_config_file s false))
      ips

-- The log of every server, and the files of the run into its directory.
abbrev pub collect_events : Site → Context → List (Text × Text) → List Effect
collect_events s c ips = on_each fetched ips ++ os_system (collect_command s c) ∷ []

module _ (s : Site) (n : ℕ) (ips : List (Text × Text)) (config : Bool → Text)
    (h : IsSite s n ips config) where
  pub config_paths-Does :
      (b : Bool)
      → Does
          (config_paths s n b)
          (some (config_file s b), some (remote_config_file s b))
          (renewed (config_file s b) (config b))
  unfolding config_paths
  config_paths-Does b t = rw (h.configs b) (trace_eq (simp append_assoc))

  pub stop_servers-Does : Does (stop_servers s ips) tt (on_each (λ i ip. ran ip kill_replicas) ips)
  unfolding stop_servers
  stop_servers-Does = run_each-Does s.servers ips h.names kill_replicas h.addresses

  pub reset_servers-Does :
      Does (reset_servers s ips) tt (on_each (λ i ip. ran ip (reset_node_command s)) ips)
  unfolding reset_servers
  reset_servers-Does = run_each-Does s.servers ips h.names (reset_node_command s) h.addresses

  pub copy_configs-Does : Does (copy_configs s n ips) tt (config_events s ips config)
  unfolding copy_configs
  copy_configs-Does = servers-Does s.servers ips h.names _ _ (
      All-map
        (λ e found t. rw (config_paths-Does false t) (
          copy_if_given-Does ips e.0 e.1 (config_file s false) (remote_config_file s false) found _
          ∙ trace_eq (append_assoc t _ _)))
        ips h.addresses)

  -- A file to every server.
  pub copy_each-Does :
      (from_path to_path : Text)
      → Does
          (for_each s.servers (λ i. copy_if_given ips i (some from_path, some to_path)))
          tt
          (on_each (λ i ip. sent ip from_path to_path) ips)
  copy_each-Does from_path to_path =
      servers-Does s.servers ips h.names _ _ (
        All-map (λ e found. copy_if_given-Does ips e.0 e.1 from_path to_path found) ips h.addresses)

  -- A step that vr.py does not use.
  skipped-Does :
      (body : Text → Script Effect (Unit {0}))
      → ((i : Text) → Does (body i) tt [])
      → (names : List Text) → Does (for_each names body) tt []
  unfolding for_each
  skipped-Does body nothing [] t = trace_eq (sym (append-nil t))
  skipped-Does body nothing (i ∷ is) t =
      rw (nothing i t) (skipped-Does body nothing is (t ++ []) ∙ trace_eq (append_assoc t [] []))

  pub copy_prenode_configs-Does : Does (copy_prenode_configs s ips) tt []
  unfolding copy_if_given
  copy_prenode_configs-Does = skipped-Does _ (λ i t. trace_eq (sym (append-nil t))) s.servers

  pub start_prenodes-Does : Does (start_prenodes s ips) tt []
  unfolding run_if_given
  start_prenodes-Does = skipped-Does _ (λ i t. trace_eq (sym (append-nil t))) s.servers

  fetch_logs-Does : Does (for_each s.servers (fetch_log ips)) tt (on_each fetched ips)
  unfolding copy_file_from_remote fetched
  fetch_logs-Does =
      servers-Does s.servers ips h.names fetched (fetch_log ips)
        (All-map (λ e found t. rw found) ips h.addresses)

  pub collect-Does : (c : Context) → Does (collect s c ips) tt (collect_events s c ips)
  unfolding collect
  collect-Does c t = rw (fetch_logs-Does t) (trace_eq (append_assoc t _ _))

-- Only behind the first server is there a wait.
is_first : (x : ℕ) → (str_int (x + 1) =text codes "1") ≡ (x == 0)
unfolding str_int ◌=text◌
is_first zero = refl
is_first (suc x) = =text_false (suc x + 1) 1 (omega arith) ∙ sym (==_false (suc x) 0 (omega arith))

module _ (s : Site) (c : Context) (ips : List (Text × Text)) where
  abbrev pub start_one : Text → Script Effect (Unit {0})
  start_one i = do
    start_node s c ips i
    (if i =text codes "1" then emit (os_system (codes "sleep 5")) else pure tt)

  pub start_each-Does :
      (x : ℕ) (lines : List Text)
      → HasAddresses ips (numbered x lines)
      → Does
          (for_each (servers_from x (length lines)) start_one)
          tt
          (replica_events s c x (numbered x lines))
  unfolding start_node replica_events numbered servers_from run_remote for_each
  start_each-Does x [] h t = trace_eq (sym (append-nil t))
  start_each-Does x (line ∷ lines) (found, h) t =
      let rest = start_each-Does (x + 1) lines h in
      rw (found, start_node_command-str_int s c x, is_first x)
        (elim (Bool-cases (x == 0)) [
          | inl first ↦ rw first (rest _ ∙ trace_eq (simp append_assoc))
          | inr later ↦ rw later (rest _ ∙ trace_eq (simp append_assoc))
        ])
