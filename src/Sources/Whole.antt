-- ===== src/Sources/Whole.antt =====
-- `main` of update_sources_common.py, and the update_sources.py of the experiments.
use mathlib.Core.Path.{subst, ap₂}
use skyros.Deploy.Ips.{clean}
use skyros.Sources.Threads.{Interleaved-InOrder, total_length, InOrder, Interleaved}
use mathlib.Core.List.{map}
use skyros.Sources.{
  repo_base, checked, update_machine-effects, make_command, udp_command, repo_base,
  checkout_command, update_machine, built, start_remote,
}
use skyros.Results.Latency.Parse.{show_names}
use skyros.Deploy.Vr.{home_dir, Site}
use skyros.Base.Text.{file_lines, codes, Text}
use skyros.Deploy.Run.{ssh_command, Effect, Cluster, print_line, os_system}
use skyros.Base.{◌≡◌, refl, ap, List, [], ◌∷◌, ◌++◌, Result, ok, All, length}
use skyros.Base.Script.{Script, ◌>>◌}

-- the machines of `../../external_ips`
abbrev pub machines : Cluster → List Text
machines w = map clean (file_lines w.external_ips)

-- what the thread of a machine does; an exception ends the thread only
abbrev pub update_effects : (Text → Text) → Cluster → Text → Text → List Effect
update_effects strip w branch machine = (update_machine strip w machine branch []).1

-- `main`: the effects that it can have
pub record Updates (strip : Text → Text) (w : Cluster) (branch : Text) (es : List Effect)
    : Type 0 where
  pub turns : List Effect
  pub threads : Interleaved (map (update_effects strip w branch) (machines w)) turns
  pub all : es ≡ print_line (show_names (machines w)) ∷ turns

-- rocksdb/update_sources.py
abbrev rocks_command : Text
rocks_command =
    codes "cd " ++ (repo_base ++ codes "/src/deps/rocksdb-6.12.7/; make static_lib -j16")

unfoldable pub build_rocks : Text → Text → Script Effect (Unit {0})
build_rocks desired_branch src_machine = do
  start_remote src_machine (checkout_command desired_branch)
  start_remote src_machine rocks_command

abbrev pub rocks_effects : Text → Text → List Effect
rocks_effects branch machine = (build_rocks branch machine []).1

pub record RocksUpdates (strip : Text → Text) (w : Cluster) (es : List Effect) : Type 0 where
  pub builds : List Effect
  pub build_threads : Interleaved (map (rocks_effects (codes "rocksdb")) (machines w)) builds
  pub updates : List Effect
  pub main : Updates strip w (codes "rocksdb") updates
  pub all : es ≡ builds ++ updates

module _ (strip : Text → Text) (w : Cluster) where
  -- the scripts of the other experiments
  abbrev pub CompatUpdate : List Effect → Type 0
  CompatUpdate = Updates strip w (codes "commkv")

  abbrev pub KvUpdate : List Effect → Type 0
  KvUpdate = Updates strip w (codes "commkv")

  abbrev pub FsUpdate : List Effect → Type 0
  FsUpdate = Updates strip w (codes "fs")

  abbrev pub YcsbUpdate : List Effect → Type 0
  YcsbUpdate = Updates strip w (codes "master")

  abbrev pub MixedAllUpdate : List Effect → Type 0
  MixedAllUpdate = Updates strip w (codes "master")

  abbrev pub NilextNonnilextUpdate : List Effect → Type 0
  NilextNonnilextUpdate = Updates strip w (codes "master")

  abbrev pub NilextOnlyUpdate : List Effect → Type 0
  NilextOnlyUpdate = Updates strip w (codes "master")

  abbrev pub NilextReadsUpdate : List Effect → Type 0
  NilextReadsUpdate = Updates strip w (codes "master")

  abbrev pub ReadLatestUpdate : List Effect → Type 0
  ReadLatestUpdate = Updates strip w (codes "readlatest")

-- The commands that a machine gets on a branch, with the check at the end.
abbrev pub machine_effects : Cluster → Text → Text → List Effect
machine_effects w branch machine =
    map (λ command. os_system (ssh_command machine command))
      (udp_command ∷ checkout_command branch ∷ map make_command (built branch))
    ++ checked w machine

-- However the threads take turns, an update prints the machines, and then every machine gets all
-- its commands in their order, with the check of its branch last, and nothing else happens: also if
-- the check of another machine fails.
pub Updates-order :
    (strip : Text → Text) (w : Cluster) (branch : Text) {es : List Effect}
    → Updates strip w branch es
    → (turns : List Effect) × (es ≡ print_line (show_names (machines w)) ∷ turns)
      × (All (λ machine. InOrder (machine_effects w branch machine) turns) (machines w)
          × (length turns ≡ total_length (map (machine_effects w branch) (machines w))))
Updates-order strip w branch h =
    let (orders, count) =
      Interleaved-InOrder (subst (λ ts. Interleaved ts h.turns) (same (machines w)) h.threads) in
    (h.turns, h.all, (All-from-map (λ t. InOrder t h.turns) (machines w) orders, count))
  where
    same :
        (ms : List Text)
        → map (update_effects strip w branch) ms ≡ map (machine_effects w branch) ms
    same [] = refl
    same (m ∷ ms) =
        ap₂ ◌∷◌
          (ap (λ (r : Result (Unit {0}) × List Effect). r.1)
            (update_machine-effects strip w m branch))
          (same ms)

    All-from-map :
        (P : List Effect → Type 0) (ms : List Text)
        → All P (map (machine_effects w branch) ms)
        → All (λ m. P (machine_effects w branch m)) ms
    All-from-map P [] h = tt
    All-from-map P (m ∷ ms) (hm, h) = (hm, All-from-map P ms h)

-- On a machine brought to the branch, the directory from which vr.py runs the code is built, with
-- these blanks before the command.
abbrev pub IsBuilt : (Text → Text) → Cluster → Site → Text → Text → Text → Type 0
IsBuilt strip w s machine branch code =
    (home : Text) × (blank : Text) × (home_dir s code ≡ ok home)
    × InOrder
        (os_system (
            ssh_command machine
              (codes "cd " ++ (home ++ (codes ";" ++ (blank ++ codes "make -j16;")))))
          ∷ [])
        (update_effects strip w branch machine)
