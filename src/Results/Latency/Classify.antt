-- ===== src/Results/Latency/Classify.antt =====
-- How parse.py (of ycsb, commutativity-kv and micro-nilext-reads, three copies of one script) reads
-- the latencies of a run into a list for each class of operations and one for all.
pub mod Raw
pub mod Partition
use skyros.Base.Decimal.{int, PyInt}
use skyros.Base.Text.{file_lines, Text}
use skyros.Base.{
  value_error, or_raise, index_error, assertion_error, ℕ, zero, suc, ◌+◌, ◌-◌, ◌*◌, ◌/◌, ◌%◌, ◌≤◌,
  ◌<◌, ◌≡◌, refl, sym, ap, ◌∙◌, ◌≢◌, ◌⊎◌, inl, inr, Bool, true, false, not, ◌&&◌, ◌||◌, Option,
  none, some, List, [], ◌∷◌, ◌++◌, arith, ltb, leb, ◌==◌, if◌then◌else◌, Bool-cases, Result, ok,
  err, All, length,
}
use skyros.Base.Checked.{◌>>=◌, ◌>>◌, guard}

-- The four lists of the script.
pub record Lists : Type 0 where
  pub read_latencies : List PyInt
  pub nilext_write_latencies : List PyInt
  pub non_nilext_write_latencies : List PyInt
  pub all_latencies : List PyInt

abbrev pub no_latencies : Lists
no_latencies = record {
  read_latencies = [];
  nilext_write_latencies = [];
  non_nilext_write_latencies = [];
  all_latencies = [];
}

-- the three tests of the first character
abbrev pub is_read : ℕ → Bool
is_read c = (c == b'R') || (c == b'r')

abbrev pub is_nilext_write : ℕ → Bool
is_nilext_write c = (c == b'I') || ((c == b'i') || ((c == b'U') || (c == b'u')))

abbrev pub is_non_nilext_write : ℕ → Bool
is_non_nilext_write c = (c == b'E') || (c == b'e')

-- the `append` of a latency to the list of its class and to the list of all
unfoldable pub append_latency : ℕ → PyInt → Lists → Result Lists
append_latency c n s =
    let all = s.all_latencies ++ n ∷ [] in
    if is_read c
    then ok (record s { read_latencies = s.read_latencies ++ n ∷ []; all_latencies = all })
    else if is_nilext_write c
    then ok (record s {
      nilext_write_latencies = s.nilext_write_latencies ++ n ∷ [];
      all_latencies = all;
    })
    else if is_non_nilext_write c
    then ok (record s {
      non_nilext_write_latencies = s.non_nilext_write_latencies ++ n ∷ [];
      all_latencies = all;
    })
    else err assertion_error

-- the body of `for line in f`; a line of no class fails the assertion before its number is read
unfoldable pub parse_line : Text → Lists → Result Lists
parse_line [] s = err index_error
parse_line (c ∷ rest) s =
    if is_read c || (is_nilext_write c || is_non_nilext_write c)
    then (do n ← or_raise (int rest) value_error; append_latency c n s)
    else err assertion_error

unfoldable pub parse_lines : List Text → Lists → Result Lists
parse_lines [] s = ok s
parse_lines (line ∷ rest) s = do s' ← parse_line line s; parse_lines rest s'

-- `for lf in latencyfiles`
unfoldable pub parse_files : (Text → Text) → List Text → Lists → Result Lists
parse_files cat [] s = ok s
parse_files cat (lf ∷ rest) s = do s' ← parse_lines (file_lines (cat lf)) s; parse_files cat rest s'
