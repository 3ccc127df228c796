-- ===== src/Deploy/Run.antt =====
-- What experiments/remote-throughput.py does to the outside, and its helpers: commands on other
-- machines, copies of files, and the output file.
pub mod Load
pub mod Order
pub mod Sane
pub mod Whole
use skyros.Results.Table.{lookup}
use skyros.Base.Text.{codes, is_empty, ◌=text◌, Text}
use skyros.Base.{
  key_error, or_raise, ℕ, zero, suc, ◌+◌, ◌-◌, ◌*◌, ◌/◌, ◌%◌, ◌≤◌, ◌<◌, ◌≡◌, refl, sym, ap, ◌∙◌,
  ◌≢◌, ◌⊎◌, inl, inr, Bool, true, false, not, ◌&&◌, ◌||◌, Option, none, some, List, [], ◌∷◌, ◌++◌,
  arith, ltb, leb, ◌==◌, if◌then◌else◌, Bool-cases, Result, ok, err, All, length,
}
use skyros.Base.Script.{Script, pure, raise, lift, emit, verify, ◌>>=◌, ◌>>◌, for_each}

-- `print`, `os.system`, a command whose output is read (`p.communicate()`), a file that is opened
-- for writing, and a text that is written at its end.
pub data Effect : Type 0 where
  print_line : Text → Effect
  os_system : Text → Effect
  communicate : Text → Effect
  truncate : Text → Effect
  append_to : Text → Text → Effect

-- What the outside is: the directories of the repository and of the script, the address files, and
-- what a command prints, decoded, and writes to its error output, with `str` of those bytes.
pub record Cluster : Type 0 where
  pub repo_home : Text
  pub cwd : Text
  pub external_ips : Text
  pub internal_ips : Text
  pub out : Text → Text
  pub err : Text → Text
  pub show_bytes : Text → Text

-- `'ssh {0}@{1} \'sh -c "{2}" &\''`, with AWS_UBUNTU_USER
abbrev pub ssh_command : Text → Text → Text
ssh_command machine_ip command =
    codes "ssh sarthakm@" ++ (machine_ip ++ (codes " 'sh -c \"" ++ (command ++ codes "\" &'")))

-- a value that may be `None`, in `format` and in `print`
abbrev pub str_option : Option Text → Text
str_option none = codes "None"
str_option (some text) = text

unfoldable pub run_remote : Text → Text → Script Effect (Unit {0})
run_remote machine_ip command = do
  emit (print_line (ssh_command machine_ip command))
  emit (os_system (ssh_command machine_ip command))

-- what the command prints and what it writes to its error output
unfoldable pub invoke_remote_cmd : Cluster → Text → Text → Script Effect (Text × Text)
invoke_remote_cmd w machine_ip command =
    let cmd = ssh_command machine_ip command in
    do
      emit (communicate cmd)
      (if is_empty (w.err cmd)
          then pure tt
          else emit (
              print_line (codes "Warning for" ++ (cmd ++ (codes ":" ++ w.show_bytes (w.err cmd))))))
      pure (w.out cmd, w.err cmd)

unfoldable pub copy_file_remote : Text → Text → Text → Script Effect (Unit {0})
copy_file_remote machine_ip from_file_path to_file_path = emit (
    os_system (
      codes "scp "
      ++ (from_file_path ++ (codes " sarthakm@" ++ (machine_ip ++ (codes ":" ++ to_file_path))))))

unfoldable pub copy_file_from_remote : Text → Text → Text → Script Effect (Unit {0})
copy_file_from_remote machine_ip from_file_path to_file_path = emit (
    os_system (
      codes "scp sarthakm@"
      ++ (machine_ip ++ (codes ":" ++ (from_file_path ++ (codes " " ++ to_file_path))))))

-- `ips[i]`
abbrev pub address : List (Text × Text) → Text → Script Effect Text
address ips i = lift (or_raise (lookup i ips) key_error)

-- `if local is not None and remote is not None: copy_file_remote(ips[i], …)`
unfoldable pub copy_if_given :
    List (Text × Text) → Text → Option Text × Option Text → Script Effect (Unit {0})
copy_if_given ips i (none, remote) = pure tt
copy_if_given ips i (some from_path, none) = pure tt
copy_if_given ips i (some from_path, some to_path) = do
  machine_ip ← address ips i
  copy_file_remote machine_ip from_path to_path

-- `if command is not None: run_remote(ips[i], …, command)`
unfoldable pub run_if_given : List (Text × Text) → Text → Option Text → Script Effect (Unit {0})
run_if_given ips i none = pure tt
run_if_given ips i (some command) = do machine_ip ← address ips i; run_remote machine_ip command

unfoldable pub write_to_output : Text → Bool → Text → Script Effect (Unit {0})
write_to_output outfile is_append to_write_buf =
    if is_empty to_write_buf
    then pure tt
    else if not is_append
    then (do emit (truncate outfile); emit (append_to outfile to_write_buf))
    else emit (append_to outfile to_write_buf)

abbrev pub output_header : Text
output_header =
    codes "#num_clients\ttotal_ops\tavg_time_taken\tcalc_ops_per_sec\ttotal_ops_per_sec\n"

abbrev pub initialize_output_file : Text → Script Effect (Unit {0})
initialize_output_file outfile = write_to_output outfile false output_header

-- the text that a file has after the effects, if nothing else touches it
unfoldable pub written_to : Text → List Effect → Text → Text
written_to path [] before = before
written_to path (truncate file ∷ rest) before =
    written_to path rest (if file =text path then [] else before)
written_to path (append_to file text ∷ rest) before =
    written_to path rest (if file =text path then before ++ text else before)
written_to path (print_line line ∷ rest) before = written_to path rest before
written_to path (os_system command ∷ rest) before = written_to path rest before
written_to path (communicate command ∷ rest) before = written_to path rest before
