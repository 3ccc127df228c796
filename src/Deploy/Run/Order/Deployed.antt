-- ===== src/Deploy/Run/Order/Deployed.antt =====
-- The whole script, on address files that have a line for every server and one for the client.
use skyros.Deploy.Run.Order.Prepared.{
  prepare_events, client_config_events, prepare-Does, copy_all_configs-Does,
}
use skyros.Base.Text.Grep.{unlines}
use mathlib.Core.Path.{subst}
use skyros.Deploy.Run.Order.Effects.{measure-Does, measure_events}
use skyros.Base.Decimal.{str_int}
use skyros.Deploy.Vr.Config.{get_config_str-lines, replica_texts}
use skyros.Deploy.Ips.{servers_from, get_internal_ips, clean, servers}
use skyros.Deploy.Ips.Servers.{take, numbered}
use skyros.Deploy.Ips.Numbered.{
  get_internal_ips-numbered, length-servers, get_server_client_external_ips-numbered,
}
use skyros.Deploy.Vr.Commands.{workload_command, kill_replicas}
use skyros.Deploy.Run.Order.{
  check_context_sanity-target, numbered-HasAddresses, servers-numbered, ran, on_each,
}
use skyros.Deploy.Run.Whole.{run_steps, deploy, rule, start_servers, site_of}
use skyros.Deploy.Run.Order.Steps.{
  start_each-Does, start_one, collect-Does, replica_events, collect_events, stop_servers-Does,
  config_events, IsSite,
}
use skyros.Deploy.Context.{check_context_sanity, outfile, Context}
use skyros.Base.Text.{file_lines, codes, Text}
use skyros.Deploy.Run.{
  output_header, append_to, truncate, write_to_output, os_system, print_line, Effect, Cluster,
}
use skyros.Deploy.Vr.{home_dir, base_port, num_faults, Site}
use skyros.Base.{
  some, ok, ◌∙◌, ◌≢◌, ℕ, ap, append_assoc, ◌<◌, ◌≡◌, refl, sym, inl, inr, Bool, false, List, [],
  ◌∷◌, ◌++◌, arith, if◌then◌else◌, Bool-cases, length,
}
use skyros.Base.Script.{lift, pure, for_each, trace_eq, Does}

-- The address files: `first` and `client_line` are the lines of `external_ips` for the servers and
-- the client, and `inner` are the lines whose addresses the replicas use among themselves.
pub record IsCluster (w : Cluster) (c : Context) (first inner : List Text) (client_line : Text)
    : Type 0 where
  pub some_server : 0 < c.num_nodes
  pub rest : List Text
  pub external : file_lines w.external_ips ≡ first ++ client_line ∷ rest
  pub first_length : length first ≡ c.num_nodes
  pub has_client : clean client_line ≢ []
  pub internal : inner ≡ (if c.geo then first else take c.num_nodes (file_lines w.internal_ips))
  pub inner_length : length inner ≡ c.num_nodes

-- The configuration for the addresses of the lines.
abbrev pub config_of : ℕ → List Text → Bool → Text
config_of n inner is_client_facing =
    unlines
      ((codes "f " ++ str_int (num_faults n)) ∷ replica_texts (base_port is_client_facing) 0 inner)

module _ (w : Cluster) (c : Context) (first inner : List Text) (client_line home command : Text)
    (h : IsCluster w c first inner client_line) where
  abbrev pub final_site : Site
  final_site = site_of w c home (numbered 0 inner)

  abbrev pub ips_of : List (Text × Text)
  ips_of = numbered 0 first

  is_site : IsSite final_site c.num_nodes ips_of (config_of c.num_nodes inner)
  is_site = record {
    names = ap servers (sym h.first_length) ∙ servers-numbered first;
    addresses = numbered-HasAddresses 0 first;
    configs = λ b. get_config_str-lines final_site c.num_nodes b inner refl refl h.inner_length;
  }

  -- What the script does behind the beginning of the output file, and as a whole.
  unfoldable pub session_events : List Effect
  session_events =
      prepare_events final_site c ips_of
      ++ (print_line (codes "Starting the prenodes")
          ∷ print_line (codes "Copying configs")
          ∷ (config_events final_site ips_of (config_of c.num_nodes inner)
              ++ (client_config_events final_site ips_of (clean client_line)
                    (config_of c.num_nodes inner)
                  ++ (print_line (codes "Starting the servers")
                      ∷ (replica_events final_site c 0 ips_of
                          ++ (os_system (codes "sleep 5")
                              ∷ (measure_events w c (clean client_line) command
                                  ++ (collect_events final_site c ips_of
                                      ++ on_each (λ i ip. ran ip kill_replicas) ips_of))))))))

  unfoldable pub deploy_events : List Effect
  deploy_events =
      rule
      ∷ print_line (outfile c)
      ∷ rule
      ∷ truncate (outfile c)
      ∷ append_to (outfile c) output_header
      ∷ session_events

  start_each-replicas :
      Does
        (for_each final_site.servers (start_one final_site c ips_of))
        tt
        (replica_events final_site c 0 ips_of)
  unfolding servers
  start_each-replicas =
      subst
        (λ n.
          Does (for_each (servers_from 0 n) (start_one final_site c ips_of)) tt
            (replica_events final_site c 0 ips_of))
        h.first_length (start_each-Does final_site c ips_of 0 first (numbered-HasAddresses 0 first))

  internal_found :
      (t : List Effect)
      → (if c.geo
            then pure (numbered 0 first)
            else lift (get_internal_ips (servers c.num_nodes) c.num_nodes w.internal_ips))
          t
        ≡ (ok (numbered 0 inner), t)
  internal_found t = elim (Bool-cases c.geo) [
    | inl geo ↦ rw (h.internal, geo)
    | inr local ↦
        rw (h.internal, local)
          (rw (get_internal_ips-numbered c.num_nodes w.internal_ips h.some_server))
  ]

  start_servers-Does : Does (start_servers final_site c ips_of) tt (
      print_line (codes "Starting the servers")
      ∷ (replica_events final_site c 0 ips_of ++ os_system (codes "sleep 5") ∷ []))
  unfolding start_servers
  start_servers-Does t = rw (start_each-replicas _) (trace_eq (simp append_assoc))

  -- If the options are in order, nothing is loaded afresh, `external_ips` has a line for every
  -- server and one that is not blank for the client, the internal addresses are as many as the
  -- servers, and the code has a directory and a command, then the script returns, and its effects
  -- are these, in this order: the output file is begun; on every server the replicas are stopped
  -- and reset; every server gets the configuration, and the client gets both; the replicas are
  -- started in the order of their numbers, with a wait behind the first; the workload is run on the
  -- client and its output is written; the logs are fetched; and the replicas are stopped.
  pub deploy-effects :
      check_context_sanity c ≡ ok tt
      → c.load_afresh ≡ false
      → home_dir (site_of w c [] []) c.code ≡ ok home
      → workload_command final_site c ≡ ok (some command)
      → deploy w c [] ≡ (ok tt, deploy_events)
  unfolding deploy deploy_events session_events run_steps write_to_output
  deploy-effects sane stale directory built =
      rw (sane, check_context_sanity-target c sane, directory)
        (rw
          (get_server_client_external_ips-numbered c.num_nodes w.external_ips client_line first
            h.rest h.external h.first_length h.has_client)
          (rw (internal_found _) (
            rw
              (prepare-Does w final_site c ips_of (clean client_line) (config_of c.num_nodes inner)
                is_site stale _)
              (rw
                (copy_all_configs-Does w final_site c ips_of (clean client_line)
                  (config_of c.num_nodes inner) is_site
                  (omega (arith, length-servers c.num_nodes, h.some_server)) _)
                (rw (start_servers-Does _) (
                  rw (measure-Does w c (clean client_line) final_site command built _) (
                    rw
                      (collect-Does final_site c.num_nodes ips_of (config_of c.num_nodes inner)
                        is_site c _)
                      (stop_servers-Does final_site c.num_nodes ips_of (config_of c.num_nodes inner)
                          is_site _
                        ∙ trace_eq (simp append_assoc)))))))))
