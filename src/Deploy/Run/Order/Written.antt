-- ===== src/Deploy/Run/Order/Written.antt =====
-- What the effects of a run do to the text of one file.
use skyros.Deploy.Run.Whole.{is_write_only, add_delay_command}
use skyros.Deploy.Vr.Commands.{reset_node_command, kill_replicas}
use skyros.Deploy.Context.{outfile, Context}
use skyros.Deploy.Vr.{Site}
use skyros.Deploy.Run.Order.Prepared.{prepare_events}
use skyros.Deploy.Run.Order.Steps.{fetched, renewed, replica_events}
use skyros.Deploy.Run.Order.{sent, ran, on_each}
use skyros.Deploy.Run.Order.Effects.{measure_events, asked, delay_events, recorded}
use skyros.Base.Text.{codes, is_empty, =text_refl, ◌=text◌, Text}
use skyros.Deploy.Run.{
  ssh_command, Cluster, communicate, os_system, print_line, append_to, truncate, Effect, written_to,
}
use skyros.Base.{
  append-nil, ℕ, ◌+◌, ◌≡◌, refl, sym, ◌∙◌, inl, inr, false, List, [], ◌∷◌, ◌++◌, ltb, ◌==◌,
  Bool-cases,
}

pub written_to-append :
    (path : Text) (es fs : List Effect) (before : Text)
    → written_to path (es ++ fs) before ≡ written_to path fs (written_to path es before)
unfolding written_to
written_to-append path [] fs before = refl
written_to-append path (truncate file ∷ es) fs before = written_to-append path es fs _
written_to-append path (append_to file text ∷ es) fs before = written_to-append path es fs _
written_to-append path (print_line line ∷ es) fs before = written_to-append path es fs before
written_to-append path (os_system command ∷ es) fs before = written_to-append path es fs before
written_to-append path (communicate command ∷ es) fs before = written_to-append path es fs before

module _ (path : Text) where
  -- The effects leave the file as it is.
  abbrev pub Leaves : List Effect → Type 0
  Leaves es = (before : Text) → written_to path es before ≡ before

  pub Leaves-append : (es fs : List Effect) → Leaves es → Leaves fs → Leaves (es ++ fs)
  Leaves-append es fs h k before =
      written_to-append path es fs before ∙ k (written_to path es before) ∙ h before

  pub Leaves-on_each :
      (events : Text → Text → List Effect)
      → ((i ip : Text) → Leaves (events i ip))
      → (es : List (Text × Text)) → Leaves (on_each events es)
  unfolding on_each written_to
  Leaves-on_each events h [] before = refl
  Leaves-on_each events h ((i, ip) ∷ es) before =
      Leaves-append (events i ip) (on_each events es) (h i ip) (Leaves-on_each events h es) before

  pub Leaves-sent : (ip from_path to_path : Text) → Leaves (sent ip from_path to_path)
  unfolding written_to
  Leaves-sent ip from_path to_path before = refl

  pub Leaves-ran : (ip command : Text) → Leaves (ran ip command)
  unfolding written_to
  Leaves-ran ip command before = refl

  pub Leaves-fetched : (i ip : Text) → Leaves (fetched i ip)
  unfolding fetched written_to
  Leaves-fetched i ip before = refl

  pub Leaves-renewed :
      (file content : Text) → (file =text path) ≡ false → Leaves (renewed file content)
  unfolding written_to
  Leaves-renewed file content other before = rw other

  Leaves-asked : (w : Cluster) (ip command : Text) → Leaves (asked w ip command)
  unfolding written_to asked
  Leaves-asked w ip command before = elim (Bool-cases (is_empty (w.err (ssh_command ip command)))) [
    | inl quiet ↦ rw quiet
    | inr noisy ↦ rw noisy
  ]

  Leaves-delay :
      (w : Cluster) (c : Context) (ip announcement command : Text)
      → Leaves (delay_events w c ip announcement command)
  unfolding delay_events written_to
  Leaves-delay w c ip announcement command before = elim (Bool-cases (ltb 0 c.client_delay)) [
    | inl delayed ↦ rw delayed (Leaves-asked w ip command before)
    | inr plain ↦ rw plain
  ]

  pub Leaves-replica_events :
      (s : Site) (c : Context) (x : ℕ) (es : List (Text × Text)) → Leaves (replica_events s c x es)
  unfolding replica_events written_to
  Leaves-replica_events s c x [] before = refl
  Leaves-replica_events s c x ((i, ip) ∷ es) before = elim (Bool-cases (x == 0)) [
    | inl first ↦ rw first (Leaves-replica_events s c (x + 1) es before)
    | inr later ↦ rw later (Leaves-replica_events s c (x + 1) es before)
  ]

  pub Leaves-prepare_events :
      (s : Site) (c : Context) (ips : List (Text × Text)) → Leaves (prepare_events s c ips)
  unfolding prepare_events written_to
  Leaves-prepare_events s c ips before =
      Leaves-append (on_each (λ i ip. ran ip kill_replicas) ips) _
        (Leaves-on_each _ (λ i ip. Leaves-ran ip kill_replicas) ips)
        (Leaves-append (on_each (λ i ip. ran ip (reset_node_command s)) ips) _
          (Leaves-on_each _ (λ i ip. Leaves-ran ip (reset_node_command s)) ips)
          (λ b. elim (Bool-cases (is_write_only c.workload)) [
            | inl write_only ↦ rw write_only
            | inr loadable ↦ rw loadable
          ]))
        before

recorded_text :
    (path text before : Text) → written_to path (recorded path text) before ≡ before ++ text
unfolding recorded written_to
recorded_text path [] before = sym (append-nil before)
recorded_text path (c ∷ text) before = rw (=text_refl path)

pub measured_text :
    (w : Cluster) (c : Context) (client_ip command before : Text)
    → written_to (outfile c) (measure_events w c client_ip command) before
      ≡ before ++ w.out (ssh_command client_ip command)
unfolding measure_events written_to
measured_text w c client_ip command before =
    let file = outfile c in
    let delay = delay_events w c client_ip (codes "Will delay client") (add_delay_command c) in
    let undelay =
      delay_events w c client_ip (codes "Will remove the delay from client")
        (codes "sudo tc qdisc del dev eth2 root netem") in
    let killed = asked w client_ip (codes "killall client") in
    let replied = asked w client_ip command in
    let out = w.out (ssh_command client_ip command) in
    rw
      (
        written_to-append file delay,
        Leaves-delay file w c client_ip (codes "Will delay client") (add_delay_command c),
      )
      (rw (written_to-append file killed, Leaves-asked file w client_ip (codes "killall client"))
        (rw (written_to-append file replied, Leaves-asked file w client_ip command)
          (rw (written_to-append file (recorded file out), recorded_text file out)
            (Leaves-delay file w c client_ip (codes "Will remove the delay from client")
              (codes "sudo tc qdisc del dev eth2 root netem") _))))
