-- ===== src/Sources.antt =====
-- experiments/results_repro/update_sources_common.py: what is done on a machine to bring it to the
-- branch of an experiment.
pub mod Threads
pub mod Whole
use mathlib.Core.List.{map}
use skyros.Deploy.Run.{ssh_command, print_line, communicate, os_system, Cluster, Effect}
use skyros.Base.Text.{=text_sound, newline, is_empty, codes, remove_char, Text, ◌=text◌}
use skyros.Base.{
  append_assoc, assertion_error, ◌≡◌, refl, ap, ◌∙◌, inl, inr, Bool, true, false, List, [], ◌∷◌,
  ◌++◌, if◌then◌else◌, Bool-cases, Result, ok, err,
}
use skyros.Base.Script.{trace_eq, Script, pure, emit, verify, ◌>>=◌, ◌>>◌}

abbrev pub repo_base : Text
repo_base = codes "/users/sarthakm/Skyros"

-- `run_remote`, which goes on at once
unfoldable pub start_remote : Text → Text → Script Effect (Unit {0})
start_remote machine_ip command = emit (os_system (ssh_command machine_ip command))

-- `invoke_remote_cmd`, which waits; the command is not put into the background
abbrev pub waited_command : Text → Text → Text
waited_command machine_ip command =
    codes "ssh sarthakm@" ++ (machine_ip ++ (codes " 'sh -c \"" ++ (command ++ codes "\" '")))

unfoldable pub ask_remote : Cluster → Text → Text → Script Effect Text
ask_remote w machine_ip command =
    let cmd = waited_command machine_ip command in
    do
      emit (communicate cmd)
      (if is_empty (w.err cmd)
          then pure tt
          else emit (
              print_line (codes "Warning for" ++ (cmd ++ (codes ":" ++ w.show_bytes (w.err cmd))))))
      pure (w.out cmd)

abbrev pub make_command : Text → Text
make_command target = codes "cd " ++ (repo_base ++ (codes "/src/" ++ target))

abbrev pub checkout_command : Text → Text
checkout_command branch =
    codes "cd "
    ++ (repo_base
        ++ (codes "; git fetch; git checkout "
            ++ (branch ++ (codes "; git pull origin " ++ branch))))

abbrev pub udp_command : Text
udp_command = codes "cd " ++ (repo_base ++ codes "/experiments; sudo bash udp_parms")

abbrev pub status_command : Text
status_command = codes "cd " ++ (repo_base ++ codes "; git status | grep \"On branch\";")

-- `update_machine`; `strip` is `str.strip`
unfoldable pub update_machine : (Text → Text) → Cluster → Text → Text → Script Effect (Unit {0})
update_machine strip w src_machine desired_branch = do
  start_remote src_machine udp_command
  start_remote src_machine (checkout_command desired_branch)
  start_remote src_machine (make_command (codes "paxos;  make -j16;"))
  start_remote src_machine (make_command (codes "skyros; make -j16;"))
  (if desired_branch =text codes "fs"
      then start_remote src_machine (make_command (codes "curp; make -j16;"))
      else pure tt)
  (if desired_branch =text codes "commkv"
      then (do
        start_remote src_machine (make_command (codes "curp; make -j16;"))
        start_remote src_machine (make_command (codes "skyroscomm; make -j16;")))
      else pure tt)
  o ← ask_remote w src_machine status_command
  verify (remove_char newline (strip o) =text (codes "On branch " ++ desired_branch))

-- The programs that are built on a branch.
unfoldable pub built : Text → List Text
built branch =
    codes "paxos;  make -j16;"
    ∷ codes "skyros; make -j16;"
    ∷ (if branch =text codes "fs"
        then codes "curp; make -j16;" ∷ []
        else if branch =text codes "commkv"
        then codes "curp; make -j16;" ∷ codes "skyroscomm; make -j16;" ∷ []
        else [])

-- What the check of the branch does.
pub checked : Cluster → Text → List Effect
checked w machine =
    let cmd = waited_command machine status_command in
    communicate cmd
    ∷ (if is_empty (w.err cmd)
        then []
        else print_line (codes "Warning for" ++ (cmd ++ (codes ":" ++ w.show_bytes (w.err cmd))))
          ∷ [])

ask_remote-status :
    (w : Cluster) (machine : Text) (t : List Effect)
    → ask_remote w machine status_command t
      ≡ (ok (w.out (waited_command machine status_command)), t ++ checked w machine)
unfolding ask_remote checked
ask_remote-status w machine t =
    elim (Bool-cases (is_empty (w.err (waited_command machine status_command)))) [
      | inl quiet ↦ rw quiet
      | inr noisy ↦ rw noisy (trace_eq (simp append_assoc))
    ]

apart : (codes "fs" =text codes "commkv") ≡ false
unfolding ◌=text◌
apart = refl

judged :
    (b : Bool) (t : List Effect)
    → ◌≡◌ {A = Result (Unit {0}) × List Effect}
        (verify b t)
        (if b then ok tt else err assertion_error, t)
judged true t = refl
judged false t = refl

-- A machine gets these commands and no others, in this order, on every branch: the parameters, the
-- checkout, one build for each program of the branch, and the check; and the update fails exactly
-- if the check names another branch.
pub update_machine-effects :
    (strip : Text → Text) (w : Cluster) (machine branch : Text)
    → update_machine strip w machine branch [] ≡ (
      (if remove_char newline (strip (w.out (waited_command machine status_command)))
            =text (codes "On branch " ++ branch)
          then ok tt
          else err assertion_error),
      map
            (λ command. os_system (ssh_command machine command))
            (udp_command ∷ checkout_command branch ∷ map make_command (built branch))
          ++ checked w machine,
    )
unfolding update_machine start_remote built
update_machine-effects strip w machine branch = elim (Bool-cases (branch =text codes "fs")) [
  | inl fs ↦
      rw
        (fs, ap (λ (b : Text). b =text codes "commkv") (=text_sound branch (codes "fs") fs) ∙ apart)
        (rw (ask_remote-status w machine _) (judged named _))
  | inr other ↦ elim (Bool-cases (branch =text codes "commkv")) [
    | inl commkv ↦ rw (other, commkv) (rw (ask_remote-status w machine _) (judged named _))
    | inr neither ↦ rw (other, neither) (rw (ask_remote-status w machine _) (judged named _))
  ]
]
  where
    named : Bool
    named =
        remove_char newline (strip (w.out (waited_command machine status_command)))
        =text (codes "On branch " ++ branch)
