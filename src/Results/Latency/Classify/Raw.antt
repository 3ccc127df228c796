-- ===== src/Results/Latency/Classify/Raw.antt =====
-- The raw file of a benchmark, written by src/skyros/bench/client.cc, as parse.py reads it.
use skyros.Base.Text.Grep.{file_lines-line}
use skyros.Results.Latency.Classify.{
  parse_line, parse_lines, append_latency, is_non_nilext_write, is_nilext_write, Lists, is_read,
}
use skyros.Base.Decimal.{
  is_digit, str_int-IsNumeral, IsNumeral-Lacks, int-str_int_line, str_int, PyInt,
}
use skyros.Base.Text.{file_lines, newline, Text}
use skyros.Base.{
  refl, sym, ◌∙◌, ap, All, append_assoc, ◌≢◌, inr, append-nil, inl, Bool-cases, arith, false, ok,
  true, ◌≡◌, ℕ, Bool, ◌||◌, List, [], ◌∷◌, ◌++◌, if◌then◌else◌,
}

-- An operation of the benchmark: its code and its latency in nanoseconds.
abbrev pub Operation : Type 0
Operation = ℕ × ℕ

-- the lines of operations with their latencies
unfoldable pub raw_text : List Operation → Text
raw_text [] = []
raw_text ((opcode, ns) ∷ rest) = opcode ∷ (str_int ns ++ newline ∷ raw_text rest)

-- The latencies of the operations whose code passes a test, in order.
unfoldable pub latencies_of : (ℕ → Bool) → List Operation → List PyInt
latencies_of test [] = []
latencies_of test ((opcode, ns) ∷ rest) =
    if test opcode then PyInt.natural ns ∷ latencies_of test rest else latencies_of test rest

-- The code of an operation of one of the three classes.
abbrev pub has_class : ℕ → Bool
has_class c = is_read c || (is_nilext_write c || is_non_nilext_write c)

-- The lists of the script after more operations.
unfoldable pub after_operations : List Operation → Lists → Lists
after_operations ops s = record {
  read_latencies = s.read_latencies ++ latencies_of is_read ops;
  nilext_write_latencies = s.nilext_write_latencies ++ latencies_of is_nilext_write ops;
  non_nilext_write_latencies = s.non_nilext_write_latencies ++ latencies_of is_non_nilext_write ops;
  all_latencies = s.all_latencies ++ latencies_of has_class ops;
}

-- The lists of the script after one more operation.
after_one : ℕ → PyInt → Lists → Lists
after_one c n s = record {
  read_latencies = s.read_latencies ++ (if is_read c then n ∷ [] else []);
  nilext_write_latencies = s.nilext_write_latencies ++ (if is_nilext_write c then n ∷ [] else []);
  non_nilext_write_latencies =
      s.non_nilext_write_latencies ++ (if is_non_nilext_write c then n ∷ [] else []);
  all_latencies = s.all_latencies ++ (if has_class c then n ∷ [] else []);
}

-- The classes are apart.
read_apart :
    (c : ℕ) → is_read c ≡ true → (is_nilext_write c ≡ false) × (is_non_nilext_write c ≡ false)
read_apart c h = ground arith

nilext_apart : (c : ℕ) → is_nilext_write c ≡ true → is_non_nilext_write c ≡ false
nilext_apart c h = ground arith

append_latency-after_one :
    (c : ℕ) (n : PyInt) (s : Lists)
    → has_class c ≡ true
    → append_latency c n s ≡ ok (after_one c n s)
unfolding append_latency after_one
append_latency-after_one c n s h = elim (Bool-cases (is_read c)) [
  | inl read ↦ simp (read, (read_apart c read).0, (read_apart c read).1, append-nil)
  | inr not_read ↦ elim (Bool-cases (is_nilext_write c)) [
    | inl nilext ↦ simp (not_read, nilext, nilext_apart c nilext, append-nil)
    | inr not_nilext ↦ elim (Bool-cases (is_non_nilext_write c)) [
      | inl non_nilext ↦ simp (not_read, not_nilext, non_nilext, append-nil)
      | inr other ↦ cc (rw (not_read, not_nilext, other) at h)
    ]
  ]
]

class-ne-newline : (c : ℕ) → has_class c ≡ true → c ≢ newline
class-ne-newline c h e = ground arith

parse_line-raw :
    (c ns : ℕ) (s : Lists)
    → has_class c ≡ true
    → parse_line ((c ∷ str_int ns) ++ newline ∷ []) s ≡ ok (after_one c (PyInt.natural ns) s)
unfolding parse_line
parse_line-raw c ns s h =
    rw (h, int-str_int_line ns) (append_latency-after_one c (PyInt.natural ns) s h)

one_more :
    (test : ℕ → Bool) (c ns : ℕ) (rest : List Operation) (before : List PyInt)
    → (before ++ (if test c then PyInt.natural ns ∷ [] else [])) ++ latencies_of test rest
      ≡ before ++ latencies_of test ((c, ns) ∷ rest)
unfolding latencies_of
one_more test c ns rest before = elim (Bool-cases (test c)) [
  | inl here ↦ rw here (append_assoc before (PyInt.natural ns ∷ []) (latencies_of test rest))
  | inr elsewhere ↦ rw elsewhere (append_assoc before [] (latencies_of test rest))
]

after_operations-cons :
    (c ns : ℕ) (rest : List Operation) (s : Lists)
    → after_operations rest (after_one c (PyInt.natural ns) s) ≡ after_operations ((c, ns) ∷ rest) s
unfolding after_operations after_one
after_operations-cons c ns rest s i = record {
  read_latencies = one_more is_read c ns rest s.read_latencies i;
  nilext_write_latencies = one_more is_nilext_write c ns rest s.nilext_write_latencies i;
  non_nilext_write_latencies =
      one_more is_non_nilext_write c ns rest s.non_nilext_write_latencies i;
  all_latencies = one_more has_class c ns rest s.all_latencies i;
}

after_operations-nil : (s : Lists) → after_operations [] s ≡ s
unfolding after_operations latencies_of
after_operations-nil s i = record {
  read_latencies = append-nil s.read_latencies i;
  nilext_write_latencies = append-nil s.nilext_write_latencies i;
  non_nilext_write_latencies = append-nil s.non_nilext_write_latencies i;
  all_latencies = append-nil s.all_latencies i;
}

newline_no_digit : is_digit newline ≡ false
newline_no_digit = refl

-- If every operation of a benchmark is of one of the three classes, parse.py reads its raw file
-- without an error, and each of its lists is longer by the latencies of its class, in the order of
-- the file, and the list of all by all of them.
pub parse_lines-raw_text :
    (ops : List Operation) (s : Lists)
    → All (λ o. has_class o.0 ≡ true) ops
    → parse_lines (file_lines (raw_text ops)) s ≡ ok (after_operations ops s)
unfolding parse_lines raw_text file_lines
parse_lines-raw_text [] s h = ap (λ (x : Lists). ok x) (sym (after_operations-nil s))
parse_lines-raw_text ((c, ns) ∷ rest) s (hc, h) =
    let line = file_lines-line (c ∷ str_int ns) (raw_text rest) (
      class-ne-newline c hc,
      IsNumeral-Lacks newline (str_int ns) newline_no_digit (str_int-IsNumeral ns),
    ) in
    ap (λ (ls : List Text). parse_lines ls s) line
    ∙ rw (parse_line-raw c ns s hc) (
        parse_lines-raw_text rest (after_one c (PyInt.natural ns) s) h
        ∙ ap (λ (x : Lists). ok x) (after_operations-cons c ns rest s))
