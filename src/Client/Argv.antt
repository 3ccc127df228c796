-- ===== src/Client/Argv.antt =====
-- The command of vr.py and the arguments of vrclient.py: two scripts with one list of positions.
use skyros.Base.Words.{words-join, words, space}
use mathlib.Core.Path.{subst}
use skyros.Deploy.Vr.Commands.{
  workload_command, workload_words, trace_prefix, ops_per_client, client_arguments,
}
use skyros.Base.Decimal.{str_int, PyInt, int-str_int}
use skyros.Deploy.Context.{str_pyint, Context}
use skyros.Base.Text.{join, =text_sound, IsWord, one_of, ◌=text◌, codes, Text}
use skyros.Deploy.Vr.{home_dir, Site}
use skyros.Client.{consensus_argument, has_consensus, Args, parse_args}
use skyros.Base.{
  ◌≡◌, refl, sym, inl, inr, true, false, none, some, List, [], ◌∷◌, ◌++◌, arith, if◌then◌else◌,
  Bool-cases, ok, All,
}

-- The words of the command, with the system's directory `home`.
abbrev pub expected_words : Site → Context → Text → List Text
expected_words s c home =
    client_arguments c (s.remote_perf_dir ++ codes "/vrclient.py") (home ++ codes "/bench/client")
      (s.remote_perf_dir
        ++ (if c.code =text codes "orig" then codes "/vrconfig" else codes "/vrconfig.client"))
      (if has_consensus c.code then (s.remote_perf_dir ++ codes "/vrconfig") ∷ [] else [])

-- The variables that the client script should have.
abbrev pub args_of : (Text → Text) → Site → Context → Text → Args
args_of directory s c home =
    let config =
      s.remote_perf_dir
      ++ (if c.code =text codes "orig" then codes "/vrconfig" else codes "/vrconfig.client") in
    record {
      client_binary_path = home ++ codes "/bench/client";
      config_file_path = config;
      perf_dir = directory config;
      num_clients = PyInt.natural c.num_clients;
      num_ops = PyInt.natural ops_per_client;
      workload = c.workload;
      code = c.code;
      time_run = str_pyint c.time;
      workload_trace_prefix = trace_prefix c;
      readwindow = str_int c.readwindow;
      windowfrac = c.windowfrac;
      consensus_config =
          if has_consensus c.code then some (s.remote_perf_dir ++ codes "/vrconfig") else none;
    }

consensus-expected :
    (s : Site) (c : Context) (home : Text)
    → consensus_argument c.code (expected_words s c home)
      ≡ ok (if has_consensus c.code then some (s.remote_perf_dir ++ codes "/vrconfig") else none)
unfolding consensus_argument
consensus-expected s c home = elim (Bool-cases (has_consensus c.code)) [
  | inl two ↦ rw two
  | inr one ↦ rw one
]

parse_args-expected :
    (directory : Text → Text) (s : Site) (c : Context) (home : Text)
    → parse_args directory (expected_words s c home) ≡ ok (args_of directory s c home)
unfolding parse_args
parse_args-expected directory s c home =
    rw (int-str_int c.num_clients, int-str_int ops_per_client) (rw (consensus-expected s c home))

orig_alone : (code : Text) → (code =text codes "orig") ≡ true → has_consensus code ≡ false
unfolding one_of
orig_alone code h =
    subst (λ (t : Text). has_consensus t ≡ false) (sym (=text_sound code (codes "orig") h))
      (unfold ◌=text◌ in refl)

-- A code that has a directory is one of four.
home_dir_known :
    (s : Site) (code home : Text)
    → home_dir s code ≡ ok home
    → (code =text codes "orig") ≡ false
    → has_consensus code ≡ false
    → (code =text codes "curp") ≡ true
unfolding home_dir one_of
home_dir_known s code home h orig consensus = ground arith

workload_words-expected :
    (s : Site) (c : Context) (home : Text)
    → home_dir s c.code ≡ ok home
    → workload_words s c ≡ ok (some (expected_words s c home))
unfolding workload_words
workload_words-expected s c home h = elim (Bool-cases (c.code =text codes "orig")) [
  | inl orig ↦ simp (orig, h, orig_alone c.code orig)
  | inr other ↦ elim (Bool-cases (has_consensus c.code)) [
    | inl two ↦ simp (other, two, h)
    | inr one ↦ simp (other, one, home_dir_known s c.code home h other one, h)
  ]
]

-- If the code has a directory and no word of the command has a blank, then the command of vr.py
-- kills the old clients and calls the client script, and the script takes from the words of that
-- call what was meant: the program and the configuration for the code, the numbers of clients and
-- of operations, the workload, the code, the time, the trace, the window, and the second
-- configuration for the codes that have one.
pub workload_command-parse_args :
    (directory : Text → Text) (s : Site) (c : Context) (home : Text)
    → home_dir s c.code ≡ ok home
    → All (IsWord space) (expected_words s c home)
    → (workload_command s c
        ≡ ok (some (codes "killall -s 9 client; " ++ join (space ∷ []) (expected_words s c home))))
      × (parse_args directory (words (join (space ∷ []) (expected_words s c home)))
          ≡ ok (args_of directory s c home))
unfolding workload_command
workload_command-parse_args directory s c home h plain = (
  simp (workload_words-expected s c home h),
  rw (words-join (expected_words s c home) plain) (parse_args-expected directory s c home),
)
