-- ===== src/Deploy/Vr/Config.antt =====
-- The configuration files of vr.py: their lines, their addresses and the number of faults.
use skyros.Deploy.Context.{str_pyint}
use skyros.Deploy.Vr.{
  base_port, num_faults, get_config_str, replica_lines, replica_line, Site, port,
}
use skyros.Base.Decimal.{int-str_int, PyInt, str_int}
use skyros.Deploy.Ips.{servers, servers_from, clean}
use skyros.Deploy.Ips.Servers.{=text_false, numbered}
use skyros.Deploy.Ips.Numbered.{length-snoc, length-numbered}
use skyros.Base.Text.Grep.{unlines}
use skyros.Base.Text.{=text_refl, ◌=text◌, newline, codes, Text}
use skyros.Results.Table.{lookup}
use mathlib.Core.Option
use skyros.Base.{
  append_assoc, append-nil, ==_true, leb-true, get_elem?, ℕ, zero, suc, ◌+◌, ◌≡◌, refl, sym, ap,
  ◌∙◌, Bool, true, some, List, [], ◌∷◌, ◌++◌, arith, ok, length,
}

-- `Configuration::QuorumSize` of src/skyros/lib/configuration.cc
unfoldable pub quorum_size : ℕ → ℕ
quorum_size f = f + 1

-- The lines of the replicas from number `x` on, at the addresses of the file of internal addresses.
pub replica_texts : ℕ → ℕ → List Text → List Text
replica_texts base x [] = []
replica_texts base x (line ∷ lines) =
    (codes "replica " ++ (clean line ++ (b':' ∷ str_int (base + x))))
    ∷ replica_texts base (x + 1) lines

pub =text_true : (m n : ℕ) → m ≡ n → (str_int m =text str_int n) ≡ true
=text_true m n e = ap (λ (k : ℕ). str_int m =text str_int k) (sym e) ∙ =text_refl (str_int m)

lookup-numbered :
    (x i : ℕ) (lines : List Text) (line : Text)
    → get_elem? lines i ≡ some line
    → lookup (str_int (x + i + 1)) (numbered x lines) ≡ some (clean line)
unfolding lookup numbered
lookup-numbered x i [] line h = cc
lookup-numbered x zero (l ∷ lines) line h =
    rw (=text_true (x + 1) (x + 0 + 1) (omega arith)) (ap (Option.map clean) h)
lookup-numbered x (suc i) (l ∷ lines) line h =
    rw (=text_false (x + 1) (x + suc i + 1) (omega arith)) (
      ap (λ (k : ℕ). lookup (str_int k) (numbered (x + 1) lines)) (omega arith)
      ∙ lookup-numbered (x + 1) i lines line h)

get_elem?-append :
    (done rest : List Text) (line : Text)
    → get_elem? (done ++ line ∷ rest) (length done) ≡ some line
get_elem?-append [] rest line = refl
get_elem?-append (d ∷ done) rest line = get_elem?-append done rest line

-- `int(str(n))`, and the port of a server.
pub port_text : (base x : ℕ) → str_pyint (port base (PyInt.natural (x + 1))) ≡ str_int (base + x)
unfolding port
port_text base x = rw (leb-true 1 (base + (x + 1)) (omega arith)) (ap str_int (omega arith))

module _ (s : Site) (base : ℕ) (all : List Text) (known : s.internal_ips ≡ numbered 0 all) where
  replica_line-text :
      (done rest : List Text) (line : Text)
      → all ≡ done ++ line ∷ rest
      → replica_line s base (str_int (length done + 1))
        ≡ ok (
            codes "replica "
            ++ (clean line ++ (b':' ∷ (str_int (base + length done) ++ newline ∷ []))))
  unfolding replica_line
  replica_line-text done rest line e =
      rw (known, e, found, int-str_int (length done + 1), port_text base (length done))
    where
      found :
          lookup (str_int (length done + 1)) (numbered 0 (done ++ line ∷ rest)) ≡ some (clean line)
      found =
          ap (λ (k : ℕ). lookup (str_int k) (numbered 0 (done ++ line ∷ rest))) (omega arith)
          ∙ lookup-numbered 0 (length done) (done ++ line ∷ rest) line
              (get_elem?-append done rest line)

  replica_lines-text :
      (rest done : List Text) (acc : Text)
      → all ≡ done ++ rest
      → replica_lines s base (servers_from (length done) (length rest)) acc
        ≡ ok (acc ++ unlines (replica_texts base (length done) rest))
  unfolding replica_lines servers_from unlines replica_texts
  replica_lines-text [] done acc e = ap (λ (t : Text). ok t) (sym (append-nil acc))
  replica_lines-text (line ∷ rest) done acc e = rw (replica_line-text done rest line e) (
      ap (λ (k : ℕ). replica_lines s base (servers_from k (length rest)) (acc ++ now))
        (length-snoc done line)
      ∙ replica_lines-text rest (done ++ line ∷ []) (acc ++ now)
          (e ∙ sym (append_assoc done (line ∷ []) rest))
      ∙ ap (λ (k : ℕ). ok ((acc ++ now) ++ unlines (replica_texts base k rest)))
          (sym (length-snoc done line))
      ∙ ap (λ (t : Text). ok t) (simp append_assoc))
    where
      now : Text
      now =
          codes "replica "
          ++ (clean line ++ (b':' ∷ (str_int (base + length done) ++ newline ∷ [])))

-- With the addresses of a file that has a line for each server, the configuration is the number
-- of faults, which is half the number of servers rounded down, and behind it for each server, in
-- order, its address and its port: 13000 and up, or 14000 and up in the client's file.
pub get_config_str-lines :
    (s : Site) (n : ℕ) (is_client_facing : Bool) (lines : List Text)
    → s.servers ≡ servers n
    → s.internal_ips ≡ numbered 0 lines
    → length lines ≡ n
    → get_config_str s n is_client_facing
      ≡ ok (
          unlines (
            (codes "f " ++ str_int (num_faults n))
            ∷ replica_texts (base_port is_client_facing) 0 lines))
unfolding get_config_str unlines servers
get_config_str-lines s n is_client_facing lines names known len =
    rw (==_true (length s.internal_ips) n (ap length known ∙ length-numbered 0 lines ∙ len)) (
      ap (λ (ns : List Text). replica_lines s (base_port is_client_facing) ns first)
        (names ∙ ap (λ (k : ℕ). servers_from 0 k) (sym len))
      ∙ replica_lines-text s (base_port is_client_facing) lines known lines [] first refl
      ∙ ap (λ (t : Text). ok t)
          (append_assoc (codes "f " ++ str_int (num_faults n)) (newline ∷ []) _))
  where
    first : Text
    first = codes "f " ++ (str_int (num_faults n) ++ newline ∷ [])
