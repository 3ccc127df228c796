-- ===== src/Tests/Sources.antt =====
-- The update of a machine that is on its branch.
use skyros.Deploy.Vr.{Site}
use mathlib.Core.Path.{subst}
use skyros.Results.Latency.Parse.{show_names}
use skyros.Sources.Threads.{total_length, turn, InOrder, finished, Interleaved}
use skyros.Sources.Whole.{Updates-order, machine_effects, machines, update_effects, Updates}
use mathlib.Core.List.{map}
use skyros.Base.Text.{Text, ◌=text◌, newline, remove_char, codes}
use skyros.Sources.{
  update_machine-effects, checked, built, make_command, make_command, checkout_command, udp_command,
  status_command, waited_command, update_machine,
}
use skyros.Deploy.Run.{Effect, print_line, ssh_command, os_system, Cluster}
use skyros.Base.{
  length, append_assoc, refl, All-append, All, List, assertion_error, ◌≡◌, [], ◌∷◌, ◌++◌,
  if◌then◌else◌, ok, err,
}

abbrev machine_world : Cluster
machine_world = record {
  repo_home = codes "/r";
  cwd = codes "/e";
  external_ips = [];
  internal_ips = [];
  out = λ cmd. codes "On branch commkv\n";
  err = λ cmd. [];
  show_bytes = λ text. text;
}

update_machine-effects_example :
    update_machine (λ s. s) machine_world (codes "h1") (codes "commkv") [] ≡ (
      (if remove_char newline (machine_world.out (waited_command (codes "h1") status_command))
            =text (codes "On branch " ++ codes "commkv")
          then ok tt
          else err assertion_error),
      map
            (λ command. os_system (ssh_command (codes "h1") command))
            (udp_command
              ∷ checkout_command (codes "commkv")
              ∷ map make_command (built (codes "commkv")))
          ++ checked machine_world (codes "h1"),
    )
update_machine-effects_example =
    update_machine-effects (λ s. s) machine_world (codes "h1") (codes "commkv")

-- The threads one after the other.
abbrev one_by_one : {E : Type 0} → List (List E) → List E
one_by_one [] = []
one_by_one (t ∷ ts) = t ++ one_by_one ts

Interleaved-next :
    {E : Type 0} (before : List (List E)) (t : List E) (after : List (List E))
    → All (λ x. x ≡ []) before
    → Interleaved (before ++ t ∷ after) (t ++ one_by_one after)
Interleaved-next before [] [] h = finished (All-append (λ x. x ≡ []) before ([] ∷ []) h (refl, tt))
Interleaved-next before [] (u ∷ after) h =
    subst (λ ts. Interleaved ts (u ++ one_by_one after)) (append_assoc before ([] ∷ []) (u ∷ after))
      (Interleaved-next (before ++ [] ∷ []) u after
        (All-append (λ x. x ≡ []) before ([] ∷ []) h (refl, tt)))
Interleaved-next before (e ∷ t) after h =
    turn before after e t refl (Interleaved-next before t after h)

Interleaved-one_by_one : {E : Type 0} (ts : List (List E)) → Interleaved ts (one_by_one ts)
Interleaved-one_by_one [] = finished tt
Interleaved-one_by_one (t ∷ ts) = Interleaved-next [] t ts tt

abbrev two_machines : Cluster
two_machines = record machine_world { external_ips = codes "h1\nh2\n" }

abbrev machine_names : List Text
machine_names = codes "h1" ∷ codes "h2" ∷ []

abbrev turns : List Effect
turns =
    one_by_one (map (update_effects (λ s. s) two_machines (codes "commkv")) (machines two_machines))

update :
    Updates
      (λ s. s)
      two_machines
      (codes "commkv")
      (print_line (show_names (machines two_machines)) ∷ turns)
update = record { turns = turns; threads = Interleaved-one_by_one _; all = refl }

Updates-order_example :
    (es : List Effect) × (print_line (show_names (machines two_machines)) ∷ turns
      ≡ print_line (show_names (machines two_machines)) ∷ es)
    × (All
          (λ machine. InOrder (machine_effects two_machines (codes "commkv") machine) es)
          (machines two_machines)
        × (length es
            ≡ total_length
                (map (machine_effects two_machines (codes "commkv")) (machines two_machines))))
Updates-order_example = Updates-order (λ s. s) two_machines (codes "commkv") update

abbrev a_site : Site
a_site = record {
  repo_home = codes "/users/sarthakm/Skyros";
  system_home_dir = [];
  local_perf_dir = codes "/e";
  remote_perf_dir = codes "/e";
  servers = [];
  internal_ips = [];
}
