-- ===== src/Deploy/Run/Sane.antt =====
-- What the check of the options at the start of remote-throughput.py is good for.
use skyros.Deploy.Run.{Effect, Cluster}
use skyros.Deploy.Vr.{in_src, Site, home_dir}
use skyros.Deploy.Vr.Commands.{client_arguments, client_call, workload_words, workload_command}
use skyros.Deploy.Sut.{SystemUnderTest, vr}
use skyros.Deploy.Run.Whole.{target_factory, deploy}
use skyros.Deploy.Context.{Context, check_context_sanity, all_codes}
use skyros.Base.Text.{join, ◌=text◌, codes, Text, one_of}
use skyros.Base.{
  PyError, ℕ, ◌≡◌, refl, inl, inr, true, some, List, [], ◌∷◌, ◌++◌, arith, Bool-cases, ok, err,
}

sane_code : (c : Context) → check_context_sanity c ≡ ok tt → one_of c.code all_codes ≡ true
unfolding check_context_sanity
sane_code c h = ground arith

sane_system :
    (c : Context)
    → check_context_sanity c ≡ ok tt
    → one_of c.target_system_name (codes "vr" ∷ []) ≡ true
unfolding check_context_sanity
sane_system c h = ground arith

home_dir-known :
    (s : Site) (code : Text)
    → one_of code all_codes ≡ true
    → (home : Text) × (home_dir s code ≡ ok home)
unfolding home_dir one_of
home_dir-known s code h = elim (Bool-cases (code =text codes "orig")) [
  | inl orig ↦ (in_src s (codes "paxos"), rw orig refl)
  | inr e1 ↦ elim (Bool-cases (code =text codes "rtop")) [
    | inl rtop ↦ (in_src s (codes "skyros"), rw (e1, rtop) refl)
    | inr e2 ↦ elim (Bool-cases (code =text codes "curp")) [
      | inl curp ↦ (in_src s (codes "curp"), rw (e1, e2, curp) refl)
      | inr e3 ↦
          let e4 : (code =text codes "rtopcomm") ≡ true = ground arith in
          (in_src s (codes "skyroscomm"), rw (e1, e2, e3, e4) refl)
    ]
  ]
]

client_call-some :
    (s : Site) (c : Context) (config : Text) (more : List Text) (home : Text)
    → home_dir s c.code ≡ ok home
    → (words : List Text) × (client_call s c config more ≡ ok (some words))
unfolding client_call
client_call-some s c config more home h = (
  client_arguments c (s.remote_perf_dir ++ codes "/vrclient.py") (home ++ codes "/bench/client")
      (s.remote_perf_dir ++ config) more,
  rw h refl,
)

workload_words-known :
    (s : Site) (c : Context)
    → one_of c.code all_codes ≡ true
    → (words : List Text) × (workload_words s c ≡ ok (some words))
unfolding workload_words one_of
workload_words-known s c h =
    let (home, found) = home_dir-known s c.code h in
    let visible = codes "/vrconfig.client" in
    let inner = (s.remote_perf_dir ++ codes "/vrconfig") ∷ [] in
    elim (Bool-cases (c.code =text codes "orig")) [
      | inl orig ↦
          let (ws, e) = client_call-some s c (codes "/vrconfig") [] home found in (ws, rw orig e)
      | inr e1 ↦
          elim (Bool-cases
            (one_of c.code (codes "rtop" ∷ codes "curpopt" ∷ codes "rtopcomm" ∷ []))) [
              | inl other ↦
                  let (ws, e) = client_call-some s c visible inner home found in
                  (ws, rw (e1, other) e)
              | inr e2 ↦
                  let e3 : (c.code =text codes "curp") ≡ true = ground arith in
                  let (ws, e) = client_call-some s c visible [] home found in
                  (ws, rw (e1, e2, e3) e)
            ]
    ]

-- What a system under test owes to a run: a directory for its programs and a command for its
-- workload.
pub record Serves (sut : SystemUnderTest) (s : Site) (c : Context) : Type 0 where
  pub home : Text
  pub command : Text
  pub has_home : sut.home_dir s c ≡ ok home
  pub has_command : sut.workload_command s c c.num_clients ≡ ok (some command)

-- If the options pass the check, the script finds vr.py, and vr.py has a directory of programs and a
-- command for the workload, whatever the machines and the number of nodes.
pub check_context_sanity-Serves :
    (c : Context) (s : Site) (num_nodes : ℕ)
    → check_context_sanity c ≡ ok tt
    → (target_factory c.target_system_name ≡ ok tt) × Serves (vr num_nodes) s c
unfolding target_factory workload_command one_of
check_context_sanity-Serves c s num_nodes h =
    let known = sane_code c h in
    let system : (c.target_system_name =text codes "vr") ≡ true = ground (arith, sane_system c h) in
    let (home, has_home) = home_dir-known s c.code known in
    let (words, has_words) = workload_words-known s c known in
    (
      rw system refl,
      record {
        home = home;
        command = codes "killall -s 9 client; " ++ join (codes " ") words;
        has_home = has_home;
        has_command = rw has_words refl;
      },
    )

-- Options that the check refuses: the script raises its error and has done nothing to the machines.
pub deploy-refused :
    (w : Cluster) (c : Context) (e : PyError) (t : List Effect)
    → check_context_sanity c ≡ err e
    → deploy w c t ≡ (err e, t)
unfolding deploy
deploy-refused w c e t h = rw h refl
