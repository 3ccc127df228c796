-- ===== src/Tests/Fs.antt =====
-- The tables of commutativity-fs, from files with four lines, with thousandths for floats.
use skyros.Results.Table.{Event}
use skyros.Results.Fs.{fs_calc}
use skyros.Results.Fs.Table.{Measured, IsMeasuredCode, line_events, bar_events, fs_calc-tables}
use skyros.Results.Average.{average_lines, mean_latency, throughput}
use skyros.Results.Float.{thousandths}
use skyros.Base.Text.{codes, Text, grep, split}
use skyros.Base.Words.{words}
use skyros.Base.Decimal.{digits_value}
use skyros.Base.{ℕ, ◌≡◌, refl, List, [], ◌++◌, arith, ok}

abbrev file : Text → Text
file path =
    codes
      "20210809-101112-0042 01234 * CooldownDone    (benchmark.cc:187): Average latency is 2000000 ns (2000 us)\n20210809-101112-0042 01234 * CooldownDone    (benchmark.cc:187): Average latency is 4000000 ns (4000 us)\n20210809-101112-0042 01234 * CooldownDone    (benchmark.cc:187): Average latency is 2000000 ns (2000 us)\n20210809-101112-0042 01234 * CooldownDone    (benchmark.cc:187): Average latency is 4000000 ns (4000 us)\n"

-- 3000 us, and 4 * 1000000 / 3000 operations in a second
abbrev measured : Text → Measured thousandths
measured code = record {
  reading = record { lines = 4; avg = 3000000; tput = 1333333 };
  kops = 1333;
  ratio = 1000;
}

IsMeasuredCode-file :
    (code : Text) → IsMeasuredCode thousandths (λ xs. xs) file (codes "d") measured code
unfolding average_lines grep split mean_latency throughput words digits_value
IsMeasuredCode-file code = record {
  point = record {
    one = refl;
    reading = record { counted = refl; average = refl; rate = refl };
    thousands = refl;
  };
  divided = refl;
}

abbrev lines : Text → List Event
lines = line_events thousandths (λ xs. xs) file (codes "d") measured

abbrev bars : Text → Text → ℕ → List Event
bars = bar_events thousandths (λ xs. xs) file (codes "d") measured

fs_calc-tables_example : fs_calc thousandths (λ xs. xs) file (codes "d") [] ≡ (
  ok tt,
  (lines (codes "orig") ++ (lines (codes "curp") ++ lines (codes "rtop")))
      ++ (bars (codes "orig") (codes "Paxos") 12
          ++ (bars (codes "curp") (codes "Curp") 28 ++ bars (codes "rtop") (codes "Skyros") 44)),
)
fs_calc-tables_example =
    fs_calc-tables thousandths (λ xs. xs) file (codes "d") measured (λ a. omega arith)
      (IsMeasuredCode-file (codes "orig")) (IsMeasuredCode-file (codes "curp"))
      (IsMeasuredCode-file (codes "rtop"))
