-- ===== src/Deploy/Run/Order/Effects.antt =====
-- The whole of a run on machines whose addresses are known, from the first line to the last stop.
use skyros.Deploy.Vr.Commands.{workload_command}
use skyros.Deploy.Vr.{Site}
use skyros.Deploy.Run.Whole.{add_delay_command, remove_delay, measure, add_delay}
use skyros.Deploy.Context.{outfile, Context}
use skyros.Base.Text.{codes, is_empty, Text}
use skyros.Deploy.Run.{
  os_system, append_to, write_to_output, communicate, print_line, Effect, ssh_command,
  invoke_remote_cmd, Cluster,
}
use skyros.Base.{
  append-nil, append_assoc, ◌≡◌, sym, inl, inr, true, some, List, [], ◌∷◌, ◌++◌, ltb, if◌then◌else◌,
  Bool-cases, ok,
}
use skyros.Base.Script.{trace_eq, Does}

-- A command on another machine that is waited for, and the warning if it writes to its error
-- output.
unfoldable pub asked : Cluster → Text → Text → List Effect
asked w ip command =
    let cmd = ssh_command ip command in
    communicate cmd
    ∷ (if is_empty (w.err cmd)
        then []
        else print_line (codes "Warning for" ++ (cmd ++ (codes ":" ++ w.show_bytes (w.err cmd))))
          ∷ [])

invoke_remote_cmd-Does :
    (w : Cluster) (ip command : Text)
    → Does
        (invoke_remote_cmd w ip command)
        (w.out (ssh_command ip command), w.err (ssh_command ip command))
        (asked w ip command)
unfolding invoke_remote_cmd asked
invoke_remote_cmd-Does w ip command t =
    elim (Bool-cases (is_empty (w.err (ssh_command ip command)))) [
      | inl quiet ↦ rw quiet
      | inr noisy ↦ rw noisy (trace_eq (simp append_assoc))
    ]

-- The delay of the client's network, set and removed.
unfoldable pub delay_events : Cluster → Context → Text → Text → Text → List Effect
delay_events w c client_ip announcement command =
    if ltb 0 c.client_delay then print_line announcement ∷ asked w client_ip command else []

-- What the run writes to the output file.
unfoldable pub recorded : Text → Text → List Effect
recorded outfile text = if is_empty text then [] else append_to outfile text ∷ []

unfoldable pub measure_events : Cluster → Context → Text → Text → List Effect
measure_events w c client_ip command =
    delay_events w c client_ip (codes "Will delay client") (add_delay_command c)
    ++ (asked w client_ip (codes "killall client")
        ++ (print_line (codes "Starting performance run")
            ∷ print_line command
            ∷ (asked w client_ip command
                ++ (print_line (codes "Completed performance run")
                    ∷ (recorded (outfile c) (w.out (ssh_command client_ip command))
                        ++ (os_system (codes "sleep 1")
                            ∷ delay_events w c client_ip (codes "Will remove the delay from client")
                                (codes "sudo tc qdisc del dev eth2 root netem")))))))

module _ (w : Cluster) (c : Context) (client_ip : Text) where
  add_delay-Does :
      Does
        (add_delay w c client_ip)
        tt
        (delay_events w c client_ip (codes "Will delay client") (add_delay_command c))
  unfolding add_delay delay_events
  add_delay-Does t = elim (Bool-cases (ltb 0 c.client_delay)) [
    | inl delayed ↦ rw delayed (
        rw (invoke_remote_cmd-Does w client_ip (add_delay_command c) _)
          (trace_eq (append_assoc t _ _)))
    | inr plain ↦ rw plain (trace_eq (sym (append-nil t)))
  ]

  remove_delay-Does : Does (remove_delay w c client_ip) tt (
      delay_events w c client_ip
        (codes "Will remove the delay from client")
        (codes "sudo tc qdisc del dev eth2 root netem"))
  unfolding remove_delay delay_events
  remove_delay-Does t = elim (Bool-cases (ltb 0 c.client_delay)) [
    | inl delayed ↦ rw delayed (
        rw (invoke_remote_cmd-Does w client_ip (codes "sudo tc qdisc del dev eth2 root netem") _)
          (trace_eq (append_assoc t _ _)))
    | inr plain ↦ rw plain (trace_eq (sym (append-nil t)))
  ]

  recorded-Does :
      (text : Text) → Does (write_to_output (outfile c) true text) tt (recorded (outfile c) text)
  unfolding write_to_output recorded
  recorded-Does text t = elim (Bool-cases (is_empty text)) [
    | inl nothing ↦ rw nothing (trace_eq (sym (append-nil t)))
    | inr something ↦ rw something
  ]

  pub measure-Does :
      (s : Site) (command : Text)
      → workload_command s c ≡ ok (some command)
      → Does (measure w s c client_ip) tt (measure_events w c client_ip command)
  unfolding measure measure_events
  measure-Does s command built t = rw (add_delay-Does t) (
      rw (invoke_remote_cmd-Does w client_ip (codes "killall client") _) (
        rw built (
          rw (invoke_remote_cmd-Does w client_ip command _) (
            rw (recorded-Does (w.out (ssh_command client_ip command)) _)
              (rw (remove_delay-Does _) (trace_eq (simp append_assoc)))))))
