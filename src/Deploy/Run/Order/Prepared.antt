-- ===== src/Deploy/Run/Order/Prepared.antt =====
-- What the steps before the phases of a run do.
use skyros.Deploy.Vr.Commands.{reset_node_command, kill_replicas}
use skyros.Deploy.Run.Order.{ran, on_each, sent}
use skyros.Deploy.Run.Load.{load}
use skyros.Deploy.Run.Whole.{is_write_only, copy_all_configs, prepare}
use skyros.Deploy.Run.Order.Steps.{
  copy_each-Does, config_paths-Does, copy_prenode_configs-Does, copy_configs-Does,
  reset_servers-Does, stop_servers-Does, start_prenodes-Does, remote_config_file, config_events,
  config_file, renewed, IsSite,
}
use skyros.Deploy.Context.{Context}
use skyros.Base.Text.{◌=text◌, codes, Text}
use skyros.Deploy.Run.{os_system, copy_file_remote, print_line, Effect, Cluster}
use skyros.Deploy.Vr.{Site}
use skyros.Base.{
  append_assoc, append-nil, from_end?-found, ◌<◌, ◌≡◌, refl, sym, inl, inr, Bool, true, false, ◌||◌,
  List, [], ◌∷◌, ◌++◌, arith, if◌then◌else◌, Bool-cases, length,
}
use skyros.Base.Script.{trace_eq, Does}

-- Up to the start of the servers.
unfoldable pub prepare_events : Site → Context → List (Text × Text) → List Effect
prepare_events s c ips =
    print_line (codes "Stopping the servers")
    ∷ (on_each (λ i ip. ran ip kill_replicas) ips
        ++ (os_system (codes "sleep 1")
            ∷ print_line (codes "Resetting the servers")
            ∷ (on_each (λ i ip. ran ip (reset_node_command s)) ips
                ++ (if is_write_only c.workload
                    then print_line (codes "Copying prenode configs") ∷ []
                    else []))))

-- A configuration of the client to every server.
unfoldable pub client_config_events : Site → List (Text × Text) → Text → (Bool → Text) → List Effect
client_config_events s ips client_ip config =
    renewed (config_file s false) (config false)
    ++ (sent client_ip (config_file s false) (remote_config_file s false)
        ++ (renewed (config_file s true) (config true)
            ++ (on_each (λ i ip. sent ip (config_file s true) (remote_config_file s true)) ips
                ++ sent client_ip (config_file s true) (remote_config_file s true))))

false_or : (a b : Bool) → (a || b) ≡ false → (a ≡ false) × (b ≡ false)
false_or true b h = cc
false_or false b h = (refl, h)

-- Without `--load_afresh` nothing is loaded.
load-Does :
    (w : Cluster) (s : Site) (c : Context) (ips : List (Text × Text)) (client_ip : Text)
    → is_write_only c.workload ≡ false
    → c.load_afresh ≡ false
    → Does (load w s c ips client_ip) tt []
unfolding load
load-Does w s c ips client_ip loadable stale t =
    let not_w = false_or (c.workload =text codes "w") (c.workload =text codes "t") loadable in
    rw (not_w.0, not_w.1, stale) (trace_eq (sym (append-nil t)))

module _ (w : Cluster) (s : Site) (c : Context) (ips : List (Text × Text)) (client_ip : Text)
    (config : Bool → Text) (h : IsSite s c.num_nodes ips config) where
  pub prepare-Does :
      c.load_afresh ≡ false → Does (prepare w s c ips client_ip) tt (prepare_events s c ips)
  unfolding prepare prepare_events
  prepare-Does stale t =
      rw
        (stop_servers-Does s c.num_nodes ips config h
          (t ++ print_line (codes "Stopping the servers") ∷ []))
        (rw (reset_servers-Does s c.num_nodes ips config h _)
          (elim (Bool-cases (is_write_only c.workload)) [
            | inl write_only ↦
                rw (write_only, copy_prenode_configs-Does s c.num_nodes ips config h _)
                  (trace_eq (simp append_assoc))
            | inr loadable ↦
                rw (loadable, load-Does w s c ips client_ip loadable stale _)
                  (trace_eq (simp append_assoc))
          ]))

  pub copy_all_configs-Does :
      0 < length s.servers
      → Does (copy_all_configs s c ips client_ip) tt (
          print_line (codes "Starting the prenodes")
          ∷ print_line (codes "Copying configs")
          ∷ (config_events s ips config ++ client_config_events s ips client_ip config))
  unfolding copy_all_configs client_config_events copy_file_remote
  copy_all_configs-Does some_server t =
      let last = from_end?-found s.servers 1 (omega arith) some_server in
      rw (start_prenodes-Does s c.num_nodes ips config h _) (
        rw (copy_configs-Does s c.num_nodes ips config h _) (
          rw last.1 (
            rw (config_paths-Does s c.num_nodes ips config h false _) (
              rw (config_paths-Does s c.num_nodes ips config h true _) (
                rw
                  (copy_each-Does s c.num_nodes ips config h (config_file s true)
                    (remote_config_file s true) _)
                  (trace_eq (simp append_assoc)))))))
