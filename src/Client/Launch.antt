-- ===== src/Client/Launch.antt =====
-- The measuring phase of vrclient.py: the traces, the commands of the clients, and their output.
pub mod Commands
use skyros.Deploy.Context.{str_pyint}
use skyros.Base.Decimal.{str_int}
use skyros.Base.Text.{newline, remove_char, file_lines, codes, ◌=text◌, join, Text}
use skyros.Client.{one_to, parse_args, printed, system, has_consensus, Event, Args}
use skyros.Client.Load.{consensus_words, trace_dir, load_phase, wait_for_clients, World}
use skyros.Base.{
  assertion_error, file_error, or_raise, ℕ, zero, suc, ◌+◌, ◌-◌, ◌*◌, ◌/◌, ◌%◌, ◌≤◌, ◌<◌, ◌≡◌, refl,
  sym, ap, ◌∙◌, ◌≢◌, ◌⊎◌, inl, inr, Bool, true, false, not, ◌&&◌, ◌||◌, Option, none, some, List,
  [], ◌∷◌, ◌++◌, arith, ltb, leb, ◌==◌, if◌then◌else◌, Bool-cases, Result, ok, err, All, length,
}
use skyros.Base.Script.{Script, pure, raise, lift, emit, verify, ◌>>=◌, ◌>>◌, for_each}

-- `workload_file_prefix`
pub workload_file_prefix : Args → Text
workload_file_prefix a =
    if (a.workload =text codes "m")
      || ((a.workload =text codes "e") || (a.workload =text codes "n"))
    then (if a.workload =text codes "e"
        then trace_dir ++ (codes "/rune/" ++ (a.workload_trace_prefix ++ codes "/run.e."))
        else if a.workload =text codes "m"
        then trace_dir
          ++ (codes "/exp2-traces/"
              ++ (a.workload_trace_prefix ++ (codes "/" ++ (a.workload_trace_prefix ++ codes "."))))
        else trace_dir
          ++ (codes "/2c-traces/"
              ++ (a.workload_trace_prefix
                  ++ (codes "/" ++ (a.workload_trace_prefix ++ codes ".")))))
    else trace_dir ++ (codes "run" ++ (a.workload ++ (codes "/run." ++ (a.workload ++ codes "."))))

-- the trace of client `i`
abbrev pub trace_file : Args → ℕ → Text
trace_file a i =
    if a.workload =text codes "r" then codes "nullfile" else workload_file_prefix a ++ str_int i

-- `'{0} -c {1} … -m vr -n {2} -k {5} -e {6} -l {4}/latencies.{3} > {4}/lat.{3} 2>&1 &'`
abbrev pub client_words : Args → ℕ → List Text → Text
client_words a i second = join (codes " ") (
    a.client_binary_path
    ∷ codes "-c"
    ∷ a.config_file_path
    ∷ (second
        ++ codes "-m"
          ∷ codes "vr"
          ∷ codes "-n"
          ∷ str_pyint a.num_ops
          ∷ codes "-k"
          ∷ trace_file a i
          ∷ codes "-e"
          ∷ a.time_run
          ∷ codes "-l"
          ∷ (a.perf_dir ++ (codes "/latencies." ++ str_int i))
          ∷ codes ">"
          ∷ (a.perf_dir ++ (codes "/lat." ++ str_int i))
          ∷ codes "2>&1"
          ∷ codes "&"
          ∷ []))

-- the body of the loop that starts the clients
pub start_client : Args → ℕ → Script Event (Unit {0})
unfolding workload_file_prefix
start_client a i =
    if has_consensus a.code
    then emit (system (client_words a i (consensus_words a)))
    else if (a.code =text codes "orig") || (a.code =text codes "curp")
    then emit (system (client_words a i []))
    else raise assertion_error

-- the body of the loop that prints the output of the clients
pub print_output : World → ℕ → Script Event (Unit {0})
print_output w i = do
  content ← lift (or_raise (w.lat i) file_error)
  for_each (file_lines content) (λ line. emit (printed (remove_char newline line)))

abbrev pub clean_command : Args → Text
clean_command a =
    codes "rm -rf "
    ++ (a.perf_dir ++ (codes "/lat.*; rm -rf " ++ (a.perf_dir ++ codes "/latencies.*")))

abbrev server_command : Args → Text
server_command a =
    a.perf_dir
    ++ (codes "/reqserver/server "
        ++ (a.readwindow
            ++ (codes " " ++ (a.windowfrac ++ codes " > /mydata/tmp/serverlog 2>&1  &"))))

start_server : Args → Script Event (Unit {0})
start_server a =
    if a.workload =text codes "r"
    then (do emit (system (server_command a)); emit (system (codes "sleep 1")))
    else pure tt

unfoldable pub run_phase : ℕ → Args → World → Script Event (Unit {0})
unfolding start_server start_client print_output wait_for_clients
run_phase rounds a w = do
  emit (system (clean_command a))
  start_server a
  for_each (one_to a.num_clients) (start_client a)
  wait_for_clients rounds w.run_ps 0
  for_each (one_to a.num_clients) (print_output w)
  emit (system (codes "killall -s 9 server"))

-- the whole script, from its arguments
unfoldable pub main : (Text → Text) → ℕ → List Text → World → Script Event (Unit {0})
unfolding load_phase run_phase
main directory rounds argv w = do
  a ← lift (parse_args directory argv)
  load_phase rounds a w
  run_phase rounds a w
