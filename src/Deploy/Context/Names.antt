-- ===== src/Deploy/Context/Names.antt =====
-- The name of the output file is the one under which the result scripts look for it.
use skyros.Results.Table.{run_name, base_file}
use skyros.Results.Calc.Scripts.{compat, kv, rocksdb, ycsb}
use skyros.Base.Decimal.{PyInt, str_int}
use skyros.Deploy.Context.{result_dir, outfile, named, is_traced, Context}
use skyros.Base.Text.{codes, ◌=text◌, Text, join}
use skyros.Base.{
  sym, ap, ◌≢◌, All, append_assoc, ==_false, or_right, ℕ, ◌≡◌, refl, inl, inr, true, false, ◌||◌,
  ◌++◌, Bool-cases,
}

-- The options that run.sh gives in every experiment.
pub record IsStandard (c : Context) (r : ℕ) : Type 0 where
  pub system : c.target_system_name ≡ codes "vr"
  pub medium : c.medium ≡ codes "data"
  pub sync : c.sync ≡ codes "no"
  pub replication : c.sync_rep_factor ≡ 3
  pub leader_reads : c.leader_reads ≡ codes "yes"
  pub delay : c.client_delay ≡ 0
  pub run : c.run ≡ PyInt.natural r

str_three : str_int 3 ≡ codes "3"
unfolding str_int
str_three = refl

str_zero : str_int 0 ≡ codes "0"
unfolding str_int
str_zero = refl

named-run_name :
    (c : Context) (run : ℕ) (workload code : Text)
    → IsStandard c run
    → named c workload code ≡ run_name workload code c.num_clients (str_int run)
unfolding join
named-run_name c run workload code h =
    rw (h.system, h.medium, h.sync, h.replication, h.leader_reads, h.delay, h.run)
      (rw (str_three, str_zero) refl)

-- A result script that looks into `d` opens the output file of a run with these options and the
-- workload, in the directory of results of that run.
abbrev pub IsRead : Text → Context → ℕ → Text → Type 0
IsRead d c run workload =
    let run_of = record c { workload = workload } in
    base_file d workload c.code c.num_clients (str_int run)
    ≡ d ++ (codes "/" ++ (result_dir run_of ++ (codes "/" ++ outfile run_of)))

module _ (d : Text) (c : Context) (run : ℕ) (standard : IsStandard c run)
    (batched : c.batch ≢ 1) where
  plain-IsRead :
      (workload : Text)
      → (workload =text codes "r") ≡ false
      → is_traced workload ≡ false
      → IsRead d c run workload
  unfolding outfile result_dir base_file
  plain-IsRead workload not_r not_traced =
      rw (not_r, not_traced, ==_false c.batch 1 batched)
        (rw (named-run_name c run workload c.code standard) (
          ap (λ (name : Text). d ++ (codes "/" ++ name))
            (sym (
              append_assoc (run_name workload c.code c.num_clients (str_int run)) (codes ".dir")
                _))))

  -- If a run has the options that run.sh gives in every experiment and batches of another size than
  -- one, then for each workload of a bar chart, for any code, number of clients and number of
  -- the run, the file that calc.py opens is the output file of the run with that workload, in the
  -- directory of results of that run.
  pub outfile-base_file :
      All (IsRead d c run) compat.workloads
      × All (IsRead d c run) kv.workloads
      × All (IsRead d c run) rocksdb.workloads
      × All (IsRead d c run) ycsb.workloads
  unfolding ◌=text◌
  outfile-base_file =
      let reads = plain-IsRead in
      let w = reads (codes "w") refl refl in
      let a = reads (codes "a") refl refl in
      (
        (reads _ refl refl, (reads _ refl refl, tt)),
        (w, (reads _ refl refl, tt)),
        (w, (a, tt)),
        (
          w,
          (
            a,
            (reads _ refl refl, (reads _ refl refl, (reads _ refl refl, (reads _ refl refl, tt)))),
          ),
        ),
      )

-- For the workloads "r", "m", "e" and "n" the name is the same for every number of operations in a
-- batch, one included.
pub outfile-batch :
    (c : Context) (b : ℕ)
    → ((c.workload =text codes "r") || is_traced c.workload) ≡ true
    → outfile (record c { batch = b }) ≡ outfile c
unfolding outfile
outfile-batch c b h = elim (Bool-cases (c.workload =text codes "r")) [
  | inl window ↦ rw window
  | inr other ↦ rw (other, or_right (c.workload =text codes "r") (is_traced c.workload) other h)
]
