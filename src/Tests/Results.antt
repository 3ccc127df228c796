-- ===== src/Tests/Results.antt =====
-- Inputs for the result scripts, with thousandths for floats.
use skyros.Results.Single.Rows.{throughput_table-rows, table_events, IsReading, Reading}
use skyros.Results.Single.{throughput_table, Point}
use skyros.Results.Average.Lines.{average_lines-output}
use skyros.Base.Text.Grep.{literal-Lacks, unlines}
use skyros.Deploy.Run.{output_header}
use mathlib.Core.List.{map}
use skyros.Results.Calc.Rows.{groups_spec}
use skyros.Results.Table.{lookup, closed, Mismatch, base_file}
use skyros.Results.Calc.Measure.{measure_workload-skip, IsRun}
use skyros.Base.Words.{words, literal-IsWord}
use skyros.Base.Decimal.{digits_value, digits_value-str_int}
use skyros.Results.Calc.Total.{calc_tables, code_events, Measurement, IsMeasured}
use skyros.Results.Average.Notice.{latency_of_line-notice, average_message, notice}
use skyros.Results.Float.{thousandths, Laws}
use skyros.Results.Average.{throughput, mean_latency, latency_of_line, average_lines}
use skyros.Base.Text.{newline, occurs_in, ◌=text◌, split, grep, codes, Text}
use skyros.Results.Calc.{calc, measure_workload, Config}
use mathlib.Core.Option
use skyros.Base.{
  keep, statistics_error, ==_false, ℕ, ◌*◌, ◌<◌, ◌≡◌, refl, ap, ◌≢◌, some, [], ◌∷◌, ◌++◌, arith, ok,
  err, length,
}

-- A line that a client has printed.
abbrev line : ℕ → Text
line ns =
    notice (codes "20210809-101112-0042") (codes "01234") (codes "CooldownDone")
      (codes "(benchmark.cc:187):") (average_message ns)

thousandths_self : (a : ℕ) → 0 < a → thousandths.div a a ≡ some 1000
thousandths_self a h = rw (==_false a 0 (omega arith)) (ap some (grind arith))

abbrev laws : Laws thousandths (λ a. 0 < a)
laws = record {
  mean_one = λ a. omega arith;
  div_self = thousandths_self;
  float-str_int = λ n fits. ap (Option.map (λ (m : ℕ). m * 1000)) (digits_value-str_int n);
}

latency_of_line-notice_example : latency_of_line thousandths (line 2000000) ≡ ok 2000000000
latency_of_line-notice_example =
    latency_of_line-notice thousandths laws (codes "20210809-101112-0042") (codes "01234")
      (codes "CooldownDone") (codes "(benchmark.cc:187):") 2000000 (omega arith)
      (literal-IsWord _ _ refl) (literal-IsWord _ _ refl) (literal-IsWord _ _ refl)
      (literal-IsWord _ _ refl)

-- Two clients, two codes and one workload.
abbrev small : Config
small = record {
  client = 2;
  workloads = codes "w" ∷ [];
  codenames = codes "orig" ∷ codes "rtop" ∷ [];
  labels = (codes "w", codes "LOAD") ∷ [];
  run_ids = codes "1" ∷ [];
  baseline = codes "orig";
  mismatch = Mismatch.stop;
  curx = 16;
  bar_width = 8;
}

-- Every result file holds the lines of two clients, and others.
abbrev cat : Text → Text
cat path =
    codes
      "#num_clients\n20210809-101112-0042 01234 * CooldownDone    (benchmark.cc:187): Average latency is 2000000 ns (2000 us)\nother\n20210809-101112-0042 01234 * CooldownDone    (benchmark.cc:187): Average latency is 4000000 ns (4000 us)\n"

-- 3000 us, and 2 * 1000000 / 3000 operations in a second
abbrev measurement : Text → Text → Measurement thousandths
measurement code workload = record { tput = 666666; avg = 3000000; kops = 666 }

IsRun-small :
    (code : Text)
    → IsRun thousandths cat 2 (base_file (codes "d") (codes "w") code 2 (codes "1")) 666666 3000000
unfolding average_lines grep split mean_latency throughput words digits_value
IsRun-small code = record { complete = refl; average = refl; rate = refl }

IsMeasured-small :
    (code : Text)
    → IsMeasured thousandths cat (codes "d") small (codes "1") measurement code (codes "w")
IsMeasured-small code = record { run = IsRun-small code; thousands = refl }

calc_tables_example : calc thousandths cat (codes "d") small [] ≡ (
  ok tt,
  code_events thousandths cat (codes "d") small (codes "1") measurement small.codenames
      ++ (groups_spec thousandths small
            (λ workload code. record { tput = 666; ratio = 1000; label = codes "LOAD" })
            0
            small.workloads
          ++ map closed small.codenames),
)
calc_tables_example =
    calc_tables thousandths cat (codes "d") small (codes "1") measurement refl (λ a. omega arith)
      (λ workload code. 1000) (λ workload. codes "LOAD") (codes "rtop" ∷ []) refl
      ((IsMeasured-small (codes "orig"), tt), ((IsMeasured-small (codes "rtop"), tt), tt))
      ((unfold lookup ◌=text◌ in refl, (refl, (refl, tt))), tt)

-- A result file with one line for two clients.
abbrev short_cat : Text → Text
short_cat path =
    codes
      "20210809-101112-0042 01234 * CooldownDone    (benchmark.cc:187): Average latency is 2000000 ns (2000 us)\n"

short_lines : 2 ≢ length (average_lines (short_cat []))
unfolding average_lines grep split
short_lines = omega arith

abbrev small_file : Text
small_file = base_file (codes "d") (codes "w") (codes "rtop") 2 (codes "1")

abbrev skipping : Config
skipping = record small { mismatch = Mismatch.skip }

measure_workload-skip_example :
    measure_workload thousandths short_cat (codes "d") skipping (codes "rtop") (codes "w") []
    ≡ (err statistics_error, [])
measure_workload-skip_example =
    measure_workload-skip thousandths short_cat (codes "d") skipping (codes "rtop") (codes "w") []
      refl (short_lines, tt)

average_lines-output_example :
    average_lines
      (output_header ++ unlines (codes "Going to load" ∷ codes "* Average latency is 7 ns" ∷ []))
    ≡ keep
        (occurs_in (codes "Average"))
        (codes "Going to load" ∷ codes "* Average latency is 7 ns" ∷ [])
average_lines-output_example =
    average_lines-output (codes "Going to load" ∷ codes "* Average latency is 7 ns" ∷ []) (
      literal-Lacks newline (codes "Going to load") refl,
      (literal-Lacks newline (codes "* Average latency is 7 ns") refl, tt),
    )

-- A table of one point, whose file has two lines for three clients.
abbrev point_file : Text
point_file = base_file (codes "d") (codes "ee1") (codes "rtop") 3 (codes "1")

abbrev short_point : Point
short_point = record { label = codes "ee1"; client = 3; resfiles = point_file ∷ [] }

abbrev short_reading : Text → Reading thousandths
short_reading resfile = record { lines = 2; avg = 2000000; tput = 1500000 }

IsReading-short : IsReading thousandths cat 3 point_file (short_reading point_file)
unfolding average_lines grep split mean_latency throughput words digits_value
IsReading-short = record { counted = refl; average = refl; rate = refl }

throughput_table-rows_example : throughput_table thousandths cat (short_point ∷ []) [] ≡ (
  ok tt,
  table_events thousandths cat
      (λ a. omega arith)
      short_reading
      (λ resfile. 1500)
      (λ p. point_file)
      (short_point ∷ []),
)
throughput_table-rows_example =
    throughput_table-rows thousandths cat (λ a. omega arith) short_reading (λ resfile. 1500)
      (λ p. point_file) (short_point ∷ [])
      (record { one = refl; reading = IsReading-short; thousands = refl }, tt) []
