-- ===== src/Client/Load.antt =====
-- The loading phase of vrclient.py, and the loops that wait for processes on other machines.
pub mod Waits
use skyros.Base.Decimal.{str_int}
use skyros.Base.Text.{
  occurs_in, is_empty, newline, split, remove_char, file_lines, join, codes, ◌=text◌, one_of, Text,
}
use skyros.Client.{slept, count_from, invoked, system, printed, Args, Event}
use skyros.Base.{
  index_error, system_exit, assertion_error, from_end?, or_raise, still_running, ℕ, zero, suc, ◌+◌,
  ◌-◌, ◌*◌, ◌/◌, ◌%◌, ◌≤◌, ◌<◌, ◌≡◌, refl, sym, ap, ◌∙◌, ◌≢◌, ◌⊎◌, inl, inr, Bool, true, false, not,
  ◌&&◌, ◌||◌, Option, none, some, List, [], ◌∷◌, ◌++◌, arith, ltb, leb, ◌==◌, if◌then◌else◌,
  Bool-cases, Result, ok, err, All, length,
}
use skyros.Base.Script.{Script, pure, raise, lift, emit, verify, ◌>>=◌, ◌>>◌, for_each}

abbrev pub trace_dir : Text
trace_dir = codes "/mydata/mnt/data/"

-- the workloads that start on an empty store
abbrev pub is_unloaded : Text → Bool
is_unloaded workload =
    one_of workload
      (codes "w" ∷ codes "e" ∷ codes "fs" ∷ codes "fsar" ∷ codes "compat" ∷ codes "nc" ∷ [])

abbrev pub load_prefix : Text → Text
load_prefix workload = if workload =text codes "r" then codes "loadr/load." else codes "load/load."

-- `'{0} -c {1} … -m vr -n {2} -k {3} > /mydata/tmp/load.log.{4} 2>&1 &'`
abbrev pub load_words : Args → ℕ → List Text → Text
load_words a i second = join (codes " ") (
    a.client_binary_path
    ∷ codes "-c"
    ∷ a.config_file_path
    ∷ (second
        ++ codes "-m"
          ∷ codes "vr"
          ∷ codes "-n"
          ∷ codes "125000"
          ∷ codes "-k"
          ∷ (trace_dir ++ (load_prefix a.workload ++ str_int i))
          ∷ codes ">"
          ∷ (codes "/mydata/tmp/load.log." ++ str_int i)
          ∷ codes "2>&1"
          ∷ codes "&"
          ∷ []))

-- the words of the second configuration; a name that was not assigned is not read
abbrev pub consensus_words : Args → List Text
consensus_words a = elim a.consensus_config [ none ↦ [] | some path ↦ codes "-s" ∷ path ∷ [] ]

-- the body of `for i in range(1, 9)`
unfoldable pub load_client : Args → ℕ → Script Event (Unit {0})
load_client a i =
    if (a.code =text codes "rtop") || (a.code =text codes "rtopcomm")
    then emit (system (load_words a i (consensus_words a)))
    else if a.code =text codes "orig"
    then (do emit (printed (load_words a i [])); emit (system (load_words a i [])))
    else if a.code =text codes "curp"
    then emit (system (load_words a i []))
    else raise assertion_error

abbrev pub ps_command : Text
ps_command = codes "ps aux | grep bench | grep client | grep vr | grep -v py"

-- `while out is not None and len(out) != 0`: the reply to poll number `k` is `ps k`. The first
-- argument bounds the rounds.
unfoldable pub wait_for_clients : ℕ → (ℕ → Text) → ℕ → Script Event (Unit {0})
wait_for_clients zero ps k = raise still_running
wait_for_clients (suc rounds) ps k =
    let again = wait_for_clients rounds ps (k + 1) in
    do emit (invoked ps_command); emit (slept 2); (if is_empty (ps k) then pure tt else again)

abbrev pub check_command : Text → Text
check_command ip =
    codes "ssh sarthakm@"
    ++ (ip ++ codes " 'sh -c \"cat /mydata/tmp/vrlog* | grep -i lastcommitted\" &'")

abbrev pub gave_up : Text
gave_up = codes "Load did not complete after checking for 7 times... exiting."

-- `while '1000000' not in out`, when `k` replies have been read: `reply k` is the next. The first
-- argument bounds the rounds.
unfoldable pub check_load : ℕ → Text → (ℕ → Text) → ℕ → Script Event Text
check_load zero ip reply k = raise still_running
check_load (suc rounds) ip reply k =
    let again = check_load rounds ip reply (k + 1) in
    do
      emit (invoked (check_command ip))
      emit (slept 2)
      (if ltb 7 (k + 1)
          then (do emit (printed gave_up); raise system_exit)
          else if occurs_in (codes "1000000") (reply k)
          then pure (reply k)
          else again)

abbrev pub needs_check : Text → Bool
needs_check code = one_of code (codes "rtop" ∷ codes "curp" ∷ codes "rtopcomm" ∷ [])

-- the first line of `external_ips`, without its newline; the empty text if there is none
abbrev pub first_line : Text → Text
first_line content = elim (file_lines content) [ [] ↦ [] | l ∷ ls ↦ remove_char newline l ]

-- What the outside answers: the polls of both waits, the replies about the load, the file of
-- external addresses, and the output files of the clients.
pub record World : Type 0 where
  pub load_ps : ℕ → Text
  pub run_ps : ℕ → Text
  pub committed : ℕ → Text
  pub external_ips : Text
  pub lat : ℕ → Option Text

unfoldable pub confirm_load : World → Script Event (Unit {0})
unfolding check_load
confirm_load w = do
  out ← check_load 8 (first_line w.external_ips) w.committed 0
  line ← lift (or_raise (from_end? (split newline out) 2) index_error)
  emit (printed (codes "Load completed in the background. Seen " ++ line))

-- the whole phase
unfoldable pub load_phase : ℕ → Args → World → Script Event (Unit {0})
unfolding load_client wait_for_clients confirm_load
load_phase rounds a w =
    if is_unloaded a.workload then emit (printed (codes "W: Not going to load")) else (do
      emit (printed (codes "Going to load"))
      for_each (count_from 1 8) (load_client a)
      wait_for_clients rounds w.load_ps 0
      emit (printed (codes "Finished loading; sleeping for 5s"))
      emit (system (codes "sleep 5"))
      (if needs_check a.code then confirm_load w else pure tt))
