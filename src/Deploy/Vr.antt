-- ===== src/Deploy/Vr.antt =====
-- experiments/vr.py: the directories, configuration files and commands of a system under test.
pub mod Commands
pub mod Config
pub mod Quorums
use skyros.Results.Table.{lookup}
use skyros.Deploy.Context.{str_pyint, Context}
use skyros.Base.Text.{newline, ◌=text◌, codes, Text}
use skyros.Base.Decimal.{int, str_int, PyInt}
use skyros.Base.{
  value_error, key_error, or_raise, assertion_error, ℕ, zero, suc, ◌+◌, ◌-◌, ◌*◌, ◌/◌, ◌%◌, ◌≤◌,
  ◌<◌, ◌≡◌, refl, sym, ap, ◌∙◌, ◌≢◌, ◌⊎◌, inl, inr, Bool, true, false, not, ◌&&◌, ◌||◌, Option,
  none, some, List, [], ◌∷◌, ◌++◌, arith, ltb, leb, ◌==◌, if◌then◌else◌, Bool-cases, Result, ok,
  err, All, length,
}
use skyros.Base.Checked.{◌>>=◌, ◌>>◌, guard}

-- What the rest of the script adds to the command line.
pub record Site : Type 0 where
  -- the repository on the machines: the directory above that of vr.py
  pub repo_home : Text
  pub system_home_dir : Text
  pub local_perf_dir : Text
  pub remote_perf_dir : Text
  pub servers : List Text
  -- `internal_ips`, by server
  pub internal_ips : List (Text × Text)

-- `os.path.join(SRC_DIR, name)`
abbrev pub in_src : Site → Text → Text
in_src s name = s.repo_home ++ (codes "/src/" ++ name)

unfoldable pub home_dir : Site → Text → Result Text
home_dir s code =
    if code =text codes "orig"
    then ok (in_src s (codes "paxos"))
    else if code =text codes "rtop"
    then ok (in_src s (codes "skyros"))
    else if code =text codes "curp"
    then ok (in_src s (codes "curp"))
    else if code =text codes "rtopcomm"
    then ok (in_src s (codes "skyroscomm"))
    else err assertion_error

unfoldable pub workload_dir : Context → Text
workload_dir c = codes "/mydata/mnt/" ++ (c.medium ++ codes "/")

abbrev pub load_dir : Text
load_dir = codes "/run/shm"

-- `base_port + (int(s)-1)`
unfoldable pub port : ℕ → PyInt → PyInt
port base (PyInt.natural n) =
    if leb 1 (base + n) then PyInt.natural (base + n - 1) else PyInt.negative 1
port base (PyInt.negative n) =
    if leb (n + 1) base then PyInt.natural (base - (n + 1)) else PyInt.negative (n + 1 - base)

-- `'replica {0}:{1}\n'`; a missing address and a server that is no number raise
replica_line : Site → ℕ → Text → Result Text
unfolding port
replica_line s base_port server = do
  ip ← or_raise (lookup server s.internal_ips) key_error
  number ← or_raise (int server) value_error
  ok (codes "replica " ++ (ip ++ (b':' ∷ (str_pyint (port base_port number) ++ newline ∷ []))))

-- the loop of `get_config_str`, on the text so far
replica_lines : Site → ℕ → List Text → Text → Result Text
unfolding replica_line
replica_lines s base_port [] config_str = ok config_str
replica_lines s base_port (server ∷ rest) config_str = do
  line ← replica_line s base_port server
  replica_lines s base_port rest (config_str ++ line)

-- `math.floor(self.num_nodes/2)`
abbrev pub num_faults : ℕ → ℕ
num_faults num_nodes = num_nodes / 2

abbrev pub base_port : Bool → ℕ
base_port is_client_facing = if is_client_facing then 14000 else 13000

-- `get_config_str`; `num_nodes` is that of the system and of the context
unfoldable pub get_config_str : Site → ℕ → Bool → Result Text
unfolding replica_lines
get_config_str s num_nodes is_client_facing = do
  guard (length s.internal_ips == num_nodes) assertion_error
  replica_lines s (base_port is_client_facing) s.servers
      (codes "f " ++ (str_int (num_faults num_nodes) ++ newline ∷ []))
