-- ===== src/Deploy/Run/Order/Output.antt =====
-- What a run leaves in its output file.
use skyros.Deploy.Run.Order.Written.{
  written_to-append, Leaves, Leaves-append, Leaves-on_each, Leaves-sent, Leaves-ran, Leaves-fetched,
  Leaves-renewed, Leaves-replica_events, Leaves-prepare_events, measured_text,
}
use skyros.Deploy.Ips.{clean}
use skyros.Deploy.Ips.Servers.{numbered}
use skyros.Deploy.Run.Whole.{deploy, site_of}
use skyros.Deploy.Vr.Commands.{workload_command, kill_replicas}
use skyros.Deploy.Context.{check_context_sanity, outfile, Context}
use skyros.Deploy.Vr.{home_dir, Site}
use skyros.Deploy.Run.Order.Prepared.{client_config_events, prepare_events}
use skyros.Deploy.Run.Order.Deployed.{
  session_events, deploy-effects, config_of, deploy_events, IsCluster,
}
use skyros.Deploy.Run.Order.Steps.{
  collect_events, remote_config_file, fetched, config_events, config_file, renewed, replica_events,
}
use skyros.Deploy.Run.Order.{sent, on_each}
use skyros.Deploy.Run.Order.Effects.{measure_events}
use skyros.Base.Text.{=text_refl, ◌=text◌, Text}
use skyros.Deploy.Run.{output_header, ssh_command, Cluster, append_to, truncate, Effect, written_to}
use skyros.Base.{◌≡◌, refl, ◌∙◌, Bool, true, false, some, List, [], ◌∷◌, ◌++◌, ok}

-- The configuration files are not the file.
abbrev pub IsOther : Text → Site → Type 0
IsOther path s = (b : Bool) → (config_file s b =text path) ≡ false

module _ (path : Text) (s : Site) (ips : List (Text × Text)) (config : Bool → Text)
    (other : IsOther path s) where
  Leaves-config_events : Leaves path (config_events s ips config)
  Leaves-config_events =
      Leaves-on_each path _
        (λ i ip.
          Leaves-append path (renewed (config_file s false) (config false)) _
            (Leaves-renewed path (config_file s false) (config false) (other false))
            (Leaves-sent path ip (config_file s false) (remote_config_file s false)))
        ips

  Leaves-client_config_events :
      (client_ip : Text) → Leaves path (client_config_events s ips client_ip config)
  unfolding client_config_events
  Leaves-client_config_events client_ip =
      let copies = on_each (λ i ip. sent ip (config_file s true) (remote_config_file s true)) ips in
      let to_client = Leaves-sent path client_ip in
      Leaves-append path (renewed (config_file s false) (config false)) _
        (Leaves-renewed path (config_file s false) (config false) (other false))
        (Leaves-append path (sent client_ip (config_file s false) (remote_config_file s false)) _
          (to_client (config_file s false) (remote_config_file s false))
          (Leaves-append path (renewed (config_file s true) (config true)) _
            (Leaves-renewed path (config_file s true) (config true) (other true))
            (Leaves-append path copies _
              (Leaves-on_each path _
                (λ i ip. Leaves-sent path ip (config_file s true) (remote_config_file s true)) ips)
              (to_client (config_file s true) (remote_config_file s true)))))

begun_text :
    (path text before : Text) (rest : List Effect)
    → written_to path (truncate path ∷ append_to path text ∷ rest) before
      ≡ written_to path rest text
unfolding written_to
begun_text path text before rest = rw (=text_refl path)

module _ (w : Cluster) (c : Context) (first inner : List Text) (client_line home command : Text)
    (h : IsCluster w c first inner client_line) where
  abbrev site : Site
  site = site_of w c home (numbered 0 inner)

  abbrev addresses_of : List (Text × Text)
  addresses_of = numbered 0 first

  abbrev configs_of : Bool → Text
  configs_of = config_of c.num_nodes inner

  session_text :
      IsOther (outfile c) site
      → (before : Text)
      → written_to (outfile c) (session_events w c first inner client_line home command h) before
        ≡ before ++ w.out (ssh_command (clean client_line) command)
  unfolding session_events written_to
  session_text other before =
      let file = outfile c in
      let client_configs = client_config_events site addresses_of (clean client_line) configs_of in
      let run = measure_events w c (clean client_line) command in
      rw
        (
          written_to-append file (prepare_events site c addresses_of),
          Leaves-prepare_events file site c addresses_of,
        )
        (rw
          (
            written_to-append file (config_events site addresses_of configs_of),
            Leaves-config_events file site addresses_of configs_of other,
          )
          (rw
            (
              written_to-append file client_configs,
              Leaves-client_config_events file site addresses_of configs_of other
                  (clean client_line),
            )
            (rw
              (
                written_to-append file (replica_events site c 0 addresses_of),
                Leaves-replica_events file site c 0 addresses_of,
              )
              (rw (written_to-append file run, measured_text w c (clean client_line) command before)
                (Leaves-append file (collect_events site c addresses_of) _
                  (Leaves-append file (on_each fetched addresses_of) _
                    (Leaves-on_each file fetched (Leaves-fetched file) addresses_of) (λ b. refl))
                  (Leaves-on_each file _ (λ i ip. Leaves-ran file ip kill_replicas) addresses_of)
                  (before ++ w.out (ssh_command (clean client_line) command)))))))

  deployed_text :
      IsOther (outfile c) site
      → written_to (outfile c) (deploy_events w c first inner client_line home command h) []
        ≡ output_header ++ w.out (ssh_command (clean client_line) command)
  unfolding deploy_events written_to
  deployed_text other =
      begun_text (outfile c) output_header []
        (session_events w c first inner client_line home command h)
      ∙ session_text other output_header

  -- Under the conditions of `deploy-effects`, where the output file is neither of the configuration
  -- files, the script returns, and what it has written to the output file is the header and what the
  -- command of the workload printed on the client, and nothing else.
  pub deploy-output :
      check_context_sanity c ≡ ok tt
      → c.load_afresh ≡ false
      → home_dir (site_of w c [] []) c.code ≡ ok home
      → workload_command site c ≡ ok (some command)
      → IsOther (outfile c) site
      → ((deploy w c []).0 ≡ ok tt)
        × (written_to (outfile c) (deploy w c []).1 []
            ≡ output_header ++ w.out (ssh_command (clean client_line) command))
  deploy-output sane stale directory built other =
      rw (deploy-effects w c first inner client_line home command h sane stale directory built)
        (refl, deployed_text other)
